-- ===== src/Ring/Tests.antt =====
-- A ring of four bytes that holds two of them round its end, and one whose counter is about to wrap.
use vncc.Base.{ℕ, ◌+◌, ◌%◌, ◌≡◌, ◌≢◌, refl, inl, List, [], ◌∷◌, arith}
use vncc.Ring.{RingBuf, len, put, get}
use vncc.Ring.Inv.{IsValid, contents}
use vncc.Ring.Put.{put_lem}
use vncc.Ring.Get.{get_lem}
use vncc.Ring.Wrap.{put-loses-place}

-- 8, then 9, round the end of the storage.
abbrev round_end : RingBuf
round_end = record { buf = 9 ∷ 0 ∷ 0 ∷ 8 ∷ []; size = 4; front = 3; rear = 5 }

round_end-IsValid : IsValid round_end
round_end-IsValid = omega arith

contents-round_end : contents round_end ≡ 8 ∷ 9 ∷ []
contents-round_end = refl

put_lem_example :
    IsValid (put round_end (1 ∷ 2 ∷ 3 ∷ []) 3).0
    × ((put round_end (1 ∷ 2 ∷ 3 ∷ []) 3).1 ≡ 2)
    × (contents (put round_end (1 ∷ 2 ∷ 3 ∷ []) 3).0 ≡ 8 ∷ 9 ∷ 1 ∷ 2 ∷ [])
put_lem_example = put_lem (1 ∷ 2 ∷ 3 ∷ []) 3 round_end-IsValid (omega arith) (inl (omega arith))

get_lem_example :
    IsValid (get round_end 1).1
    × ((get round_end 1).2 ≡ 1)
    × ((get round_end 1).0 ≡ 8 ∷ [])
    × (contents (get round_end 1).1 ≡ 9 ∷ [])
get_lem_example = get_lem 1 round_end-IsValid (inl (omega arith))

abbrev larger : List ℕ
larger = 0 ∷ 0 ∷ 0 ∷ 0 ∷ 0 ∷ 0 ∷ []

-- Three bytes; the size does not divide 2^32, and the rear counter is one short of it.
abbrev about_to_wrap : RingBuf
about_to_wrap = record { buf = 1 ∷ 2 ∷ 3 ∷ []; size = 3; front = 4294967295; rear = 4294967295 }

about_to_wrap-IsValid : IsValid about_to_wrap
about_to_wrap-IsValid = omega arith

put-loses-place_run :
    (4294967295 + len (put about_to_wrap (7 ∷ []) 1).0) % 3
    ≢ (put about_to_wrap (7 ∷ []) 1).0.rear % 3
unfolding put
put-loses-place_run =
    put-loses-place about_to_wrap (7 ∷ []) 1 about_to_wrap-IsValid (omega arith) (omega arith)
