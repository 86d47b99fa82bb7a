-- ===== src/Wire/Body.antt =====
-- What a receiver holds between calls of `RecvData`, and the block that takes a package.
use vncc.Base.{
  u32, IsByte, ℕ, ◌+◌, ◌-◌, ◌%◌, ◌^◌, ◌≤◌, ◌<◌, ◌≡◌, ◌⊎◌, inl, inr, ◌∙◌, sym, ap, ap₂, refl, List,
  [], ◌∷◌, ◌++◌, arith, leb, ◌==◌, if◌then◌else◌, Bool-cases, true, false, length, take, drop, All,
  All-drop, map, append-nil, append_assoc, take-append-drop, length-append, length-take,
  length-drop, subst,
}
use vncc.Wire.{
  htonl_bytes, ntohl_bytes, Receiver, Turn, again, as_size, terminated, take_block, start_block,
}
use vncc.Wire.Header.{frames, htonl_bytes-ntohl_bytes}

-- Between two packages: at most three bytes of a header are kept.
pub record IsIdle (s : Receiver) : Type 0 where
  pub none_due : s.len ≡ 0
  pub empty : s.package_bytes ≡ []
  pub short : length s.head < 4
  pub bytes : All IsByte s.head

-- Within a package: `_remain` counts what is missing.
pub record IsBusy (s : Receiver) : Type 0 where
  pub word : s.len < u32
  pub clear : s.head ≡ []
  pub due : 0 < s.remain
  pub sum : s.remain + length s.package_bytes ≡ s.len

abbrev pub IsValid : Receiver → Type 0
IsValid s = IsIdle s ⊎ IsBusy s

-- The bytes taken from the stream of which no package has been routed.
abbrev pub pending : Receiver → List ℕ
pending s = if s.len == 0 then s.head else htonl_bytes s.len ++ s.package_bytes

pub pending-idle : (s : Receiver) → s.len ≡ 0 → pending s ≡ s.head
pending-idle s e = ground arith

pub pending-busy : (s : Receiver) → 0 < s.len → pending s ≡ htonl_bytes s.len ++ s.package_bytes
pending-busy s h = ground arith

-- A payload whose length fits the header.
abbrev pub Fits : List ℕ → Type 0
Fits p = length p < u32

-- The stream `before` is the frames routed, then what the receiver holds, then what is left.
pub record GoesOn (before : List ℕ) (s : Receiver) (left : List ℕ) (ms : List (List ℕ))
    : Type 0 where
  pub payloads : List (List ℕ)
  pub routed : ms ≡ map terminated payloads
  pub fit : All Fits payloads
  pub valid : IsValid s
  pub clear : s.head ≡ []
  pub bytes : All IsByte left
  pub kept : before ≡ frames payloads ++ (pending s ++ left)

regroup : (h p xs ys : List ℕ) → h ++ (p ++ (xs ++ ys)) ≡ ((h ++ (p ++ xs)) ++ []) ++ ([] ++ ys)
regroup h p xs ys = simp (append_assoc, append-nil)

-- `take_block` goes on, and takes a byte if one is due and one is there.
pub record Takes (s : Receiver) (bytes : List ℕ) (t : Turn) : Type 0 where
  pub after : Receiver
  pub left : List ℕ
  pub ms : List (List ℕ)
  pub result : t ≡ again after left ms
  pub goes_on : GoesOn (htonl_bytes s.len ++ (s.package_bytes ++ bytes)) after left ms
  pub less : length left ≤ length bytes
  pub progress : 0 < s.remain → 0 < length bytes → length left < length bytes

module _ (s : Receiver) (bytes : List ℕ) (word : s.len < u32) (clear : s.head ≡ [])
    (sum : s.remain + length s.package_bytes ≡ s.len) (short : length bytes < 2 ^ 31)
    (all : All IsByte bytes) where
  abbrev payload : List ℕ
  payload = s.package_bytes ++ take s.remain bytes

  abbrev after_whole : Receiver
  after_whole = record s { len = 0; remain = 0; package_bytes = [] }

  take_block-whole :
      leb (as_size s.remain) (length bytes) ≡ true → Takes s bytes (take_block s bytes)
  unfolding take_block
  take_block-whole e = record {
    after = after_whole;
    left = drop s.remain bytes;
    ms = terminated payload ∷ [];
    result = rw e;
    goes_on = record {
      payloads = payload ∷ [];
      routed = refl;
      fit = (omega (arith, size), tt);
      valid = inl (record {
        none_due = refl;
        empty = refl;
        short = subst (λ h. length h < 4) (sym clear) (omega arith);
        bytes = subst (All IsByte) (sym clear) tt;
      });
      clear = clear;
      bytes = All-drop IsByte s.remain bytes all;
      kept = split;
    };
    less = omega (arith, length-drop s.remain bytes);
    progress = λ p q. omega (arith, length-drop s.remain bytes);
  }
    where
      there : s.remain ≤ length bytes
      there = ground arith

      size : length payload ≡ s.len
      size = omega (
        arith,
        length-append s.package_bytes (take s.remain bytes),
        length-take s.remain bytes,
        there,
      )

      split :
          htonl_bytes s.len ++ (s.package_bytes ++ bytes)
          ≡ frames (payload ∷ []) ++ (pending after_whole ++ drop s.remain bytes)
      split =
          ap (λ b. htonl_bytes s.len ++ (s.package_bytes ++ b))
            (sym (take-append-drop s.remain bytes))
          ∙ regroup (htonl_bytes s.len) s.package_bytes (take s.remain bytes) (drop s.remain bytes)
          ∙ ap₂ (λ n h. ((htonl_bytes n ++ payload) ++ []) ++ (h ++ drop s.remain bytes)) (sym size)
              (sym clear)

  abbrev after_part : Receiver
  after_part = record s {
    package_bytes = s.package_bytes ++ bytes;
    remain = (s.remain + u32 - length bytes % u32) % u32;
  }

  take_block-part :
      leb (as_size s.remain) (length bytes) ≡ false → Takes s bytes (take_block s bytes)
  unfolding take_block
  take_block-part e = record {
    after = after_part;
    left = [];
    ms = [];
    result = rw e;
    goes_on = record {
      payloads = [];
      routed = refl;
      fit = tt;
      valid = inr (record {
        word = word;
        clear = clear;
        due = omega (arith, missing);
        sum = omega (arith, missing, length-append s.package_bytes bytes);
      });
      clear = clear;
      bytes = tt;
      kept =
          sym (append-nil (pending after_part) ∙ pending-busy after_part (omega (arith, missing)));
    };
    less = omega arith;
    progress = λ p q. omega arith;
  }
    where
      missing : length bytes < s.remain
      missing = ground arith

  pub take_block-Takes : Takes s bytes (take_block s bytes)
  take_block-Takes = elim (Bool-cases (leb (as_size s.remain) (length bytes))) [
    | inl e ↦ take_block-whole e
    | inr e ↦ take_block-part e
  ]

-- A header that is complete starts a block.
pub start_block-Takes :
    (s : Receiver) (head bytes : List ℕ)
    → s.head ≡ []
    → length head ≡ 4
    → All IsByte head
    → length bytes < 2 ^ 31
    → All IsByte bytes
    → (t : Receiver) × (left : List ℕ) × (ms : List (List ℕ)) × (start_block s
          (ntohl_bytes head)
          bytes
        ≡ again t left ms)
      × GoesOn (head ++ bytes) t left ms
      × (length left ≤ length bytes)
unfolding start_block
start_block-Takes s head bytes clear four all small alls = (
  taken.after,
  taken.left,
  taken.ms,
  taken.result,
  subst (λ b. GoesOn b taken.after taken.left taken.ms)
      (ap (λ h. h ++ bytes) (htonl_bytes-ntohl_bytes head four all).0) taken.goes_on,
  taken.less,
)
  where
    begun : Receiver
    begun = record s { len = ntohl_bytes head; remain = ntohl_bytes head; package_bytes = [] }

    taken : Takes begun bytes (take_block begun bytes)
    taken =
        take_block-Takes begun bytes (htonl_bytes-ntohl_bytes head four all).1 clear (omega arith)
          small alls
