-- ===== src/Ring/Grow.antt =====
-- `ring_buf_realloc` of erender/eAVRender.cpp: the loop that moves the bytes ends, and moves them all.
use vncc.Base.{
  u32, ℕ, suc, ◌+◌, ◌%◌, ◌≤◌, ◌<◌, ◌≡◌, inl, inr, ◌∙◌, sym, ap, subst, refl, min, List, [], ◌++◌,
  arith, Option, none, some, ltb, length, take, false, Bool-cases, take_all, drop_all, ltb→lt,
  tabulate, get_or,
}
use vncc.Ring.{RingBuf, len, remain, create, get, get_len, put, drain, realloc, too_small, created}
use vncc.Ring.Inv.{IsValid, contents, length-contents, MayAdvance, create-IsValid}
use vncc.Ring.Put.{put_lem}
use vncc.Ring.Get.{get_lem}

-- What the transfer leaves behind.
pub record Moved (old old' new' : RingBuf) (n : ℕ) : Type 0 where
  pub drained : len old' ≡ 0
  pub valid : IsValid new'
  pub size : new'.size ≡ n
  pub front : new'.front ≡ 0
  pub rear : new'.rear ≡ len old
  pub bytes : contents new' ≡ contents old

drain_stop :
    (fuel n : ℕ) (old new : RingBuf)
    → (get old n).2 ≡ 0
    → drain (suc fuel) old new n ≡ some ((get old n).1, new)
unfolding drain
drain_stop fuel n old new e = ground arith

drain_next :
    (fuel n : ℕ) (old new : RingBuf)
    → 0 < (get old n).2
    → drain (suc fuel) old new n
      ≡ drain fuel (get old n).1 (put new (get old n).0 (get old n).2).0 n
unfolding drain
drain_next fuel n old new h = ground arith

get-empty_lem : {r : RingBuf} (n : ℕ) → IsValid r → len r ≡ 0 → len (get r n).1 ≡ 0
unfolding get
get-empty_lem n v e = omega (arith, v)

module _ {old : RingBuf} (new : RingBuf) (n : ℕ) (v : IsValid old) (w : IsValid new)
    (fresh : (new.front ≡ 0) × (new.rear ≡ 0)) (larger : old.size < n) (size : new.size ≡ n)
    (may : MayAdvance old.size old.front (get_len old n)) where
  whole : min n (len old) ≡ len old
  whole = omega (arith, v)

  read_all : (get old n).0 ≡ contents old
  read_all =
      (get_lem n v may).2
      ∙ take_all (min n (len old)) (contents old) (omega (arith, v, length-contents old))

  abbrev old_left : RingBuf
  old_left = (get old n).1

  abbrev new_filled : RingBuf
  new_filled = (put new (get old n).0 (get old n).2).0

  old_left-empty : len old_left ≡ 0
  old_left-empty =
      sym (length-contents (get old n).1)
      ∙ ap length (
          (get_lem n v may).3
          ∙ drop_all (min n (len old)) (contents old) (omega (arith, v, length-contents old)))

  length-read : length (get old n).0 ≡ len old
  length-read = ap length read_all ∙ length-contents old

  count : (get old n).2 ≡ len old
  count = (get_lem n v may).1 ∙ whole

  new-empty : contents new ≡ []
  new-empty = ap (λ l. tabulate l (λ k. get_or new.buf ((new.front + k) % new.size) 0)) none_held
    where
      none_held : len new ≡ 0
      none_held = omega arith

  filled :
      IsValid new_filled
      × ((put new (get old n).0 (get old n).2).1 ≡ min (get old n).2 (remain new))
      × (contents new_filled ≡ contents new ++ take (min (get old n).2 (remain new)) (get old n).0)
  filled =
      put_lem (get old n).0 (get old n).2 w (omega (arith, length-read, count))
        (inl (omega (arith, count, v)))

  filled-contents : contents new_filled ≡ contents old
  filled-contents =
      filled.2
      ∙ ap (λ xs. xs ++ take (min (get old n).2 (remain new)) (get old n).0) new-empty
      ∙ take_all (min (get old n).2 (remain new)) (get old n).0
          (omega (arith, length-read, count, v, w))
      ∙ read_all

  filled-rear : (new_filled.size ≡ n) × (new_filled.front ≡ 0) × (new_filled.rear ≡ len old)
  unfolding put
  filled-rear = (size, fresh.0, omega (arith, count, v, w))

  get-empty : (get old_left n).2 ≡ 0
  unfolding get
  get-empty = omega (arith, old_left-empty)

  drain_moves :
      (old' : RingBuf) × (new' : RingBuf) × (drain 2 old new n ≡ some (old', new'))
      × Moved old old' new' n
  drain_moves = elim (Bool-cases (ltb 0 (len old))) [
    | inl some_held ↦ (
      (get old_left n).1,
      new_filled,
      drain_next 1 n old new (omega (arith, count, ltb→lt 0 (len old) some_held))
          ∙ drain_stop 0 n old_left new_filled get-empty,
      record {
        drained = left_again;
        valid = filled.0;
        size = filled-rear.0;
        front = filled-rear.1;
        rear = filled-rear.2;
        bytes = filled-contents;
      },
    )
    | inr nothing ↦ (
      old_left,
      new,
      drain_stop 1 n old new (omega (arith, count, none_held nothing)),
      record {
        drained = old_left-empty;
        valid = w;
        size = size;
        front = fresh.0;
        rear = fresh.1 ∙ sym (none_held nothing);
        bytes =
            new-empty
            ∙ ap (λ l. tabulate l (λ k. get_or old.buf ((old.front + k) % old.size) 0))
                (sym (none_held nothing));
      },
    )
  ]
    where
      none_held : ltb 0 (len old) ≡ false → len old ≡ 0
      none_held e = ground arith

      left_again : len (get old_left n).1 ≡ 0
      left_again = get-empty_lem n (get_lem n v may).0 old_left-empty

realloc_of_drain :
    (old old' new' : RingBuf) (b : List ℕ) (n : ℕ)
    → old.size < n
    → drain 2 old (create (some b) n).0 n ≡ some (old', new')
    → realloc old (some b) n ≡ some (created 0 old' new')
unfolding realloc create
realloc_of_drain old old' new' b n larger e = ground arith

pub realloc_moves :
    {old : RingBuf} (b : List ℕ) (n : ℕ)
    → IsValid old
    → old.size < n
    → n < u32
    → n ≤ length b
    → MayAdvance old.size old.front (len old)
    → (old' : RingBuf) × (new' : RingBuf) × (realloc old (some b) n ≡ some (created 0 old' new'))
      × Moved old old' new' n
unfolding create
realloc_moves {old} b n v larger small storage may =
    let (old', new', e, moved) =
      drain_moves (create (some b) n).0 n v (create-IsValid b n (omega arith) small storage).0
        (refl, refl) larger refl (subst (MayAdvance old.size old.front) (omega (arith, v)) may) in
    (old', new', realloc_of_drain old old' new' b n larger e, moved)

-- The other branches: a size that is not larger is refused, and over a null buffer the call returns
-- 1 and moves nothing.
pub realloc_refuses :
    (old : RingBuf) (b : Option (List ℕ)) (n : ℕ)
    → (n ≤ old.size → realloc old b n ≡ some too_small)
      × (old.size < n → realloc old none n ≡ some (created 1 old (create none n).0))
unfolding realloc
realloc_refuses old b n = (λ h. ground arith, λ h. ground arith)
