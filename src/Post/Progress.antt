-- ===== src/Post/Progress.antt =====
-- `my_progress_callback` of eWebRequest.cpp, which curl calls during a download. The byte counts are
-- whole numbers, and the percentage that is computed from two of them a parameter.
use vncc.Base.{
  ℕ, ◌+◌, ◌-◌, ◌*◌, ◌%◌, ◌^◌, ◌≤◌, ◌<◌, ◌≡◌, ◌⊎◌, inl, inr, refl, Bool-cases, true, ◌&&◌, ltb,
  if◌then◌else◌, List, [], ◌∷◌, Option, none, some, length, All, arith,
}

-- The members of `DOWNLOADFILEINFO` that the callback reads and writes.
pub record Progress (Real : Type 0) : Type 0 where
  pub ts : ℕ
  pub f_persent : Real

-- The difference of two values of type `unsigned long`.
abbrev pub since : ℕ → ℕ → ℕ
since now ts = (now + 2 ^ 64 - ts) % 2 ^ 64

-- The clock, `dltotal` and `dlnow`.
pub record ProgressCall : Type 0 where
  pub now : ℕ
  pub dl_total : ℕ
  pub dl_now : ℕ

module _ {Real : Type 0} (persent : ℕ → ℕ → Real) where
  -- The download after the call, and what `UpdatePregress` is posted with.
  unfoldable pub my_progress_callback : ProgressCall → Progress Real → Progress Real × Option Real
  my_progress_callback c d =
      if ltb 0 c.dl_total && ltb 1000 (since c.now d.ts)
      then (
        record { ts = c.now; f_persent = persent c.dl_now c.dl_total },
        some (persent c.dl_now c.dl_total),
      )
      else (d, none)

  abbrev add_time : ℕ → Option Real → List ℕ → List ℕ
  add_time now none times = times
  add_time now (some x) times = now ∷ times

  -- When updates are posted in a run of calls.
  unfoldable pub update_times : List ProgressCall → Progress Real → List ℕ
  update_times [] d = []
  update_times (c ∷ calls) d =
      add_time c.now (my_progress_callback c d).1 (update_times calls (my_progress_callback c d).0)

  -- At each call with a total, the clock and the time of the last update.
  unfoldable pub stamps : List ProgressCall → Progress Real → List (ℕ × ℕ)
  stamps [] d = []
  stamps (c ∷ calls) d =
      let d' = (my_progress_callback c d).0 in
      let later = stamps calls d' in if ltb 0 c.dl_total then (c.now, d'.ts) ∷ later else later

-- The first time is at most a second after the other.
abbrev pub IsRecent : ℕ × ℕ → Type 0
IsRecent p = p.0 ≤ p.1 + 1000

-- The clock of the calls does not run back, and fits the type.
abbrev pub IsOrdered : ℕ → List ProgressCall → Type 0
IsOrdered t [] = Unit
IsOrdered t (c ∷ calls) = (t ≤ c.now) × (c.now < 2 ^ 64) × IsOrdered c.now calls

-- The times are more than a second apart, the first of them from `t`.
abbrev pub IsSpaced : ℕ → List ℕ → Type 0
IsSpaced t [] = Unit
IsSpaced t (u ∷ times) = (t + 1000 < u) × IsSpaced u times

abbrev pub last_now : ℕ → List ProgressCall → ℕ
last_now t [] = t
last_now t (c ∷ calls) = last_now c.now calls

since_later : (now ts : ℕ) → ts ≤ now → now < 2 ^ 64 → since now ts ≡ now - ts
since_later now ts h small = omega arith

IsOrdered-from :
    (s t : ℕ) (calls : List ProgressCall) → s ≤ t → IsOrdered t calls → IsOrdered s calls
IsOrdered-from s t [] h o = tt
IsOrdered-from s t (c ∷ calls) h (a, b, o) = (omega arith, b, o)

last_now-from : (s t : ℕ) (calls : List ProgressCall) → s ≤ t → last_now s calls ≤ last_now t calls
last_now-from s t [] h = h
last_now-from s t (c ∷ calls) h = omega arith

module _ {Real : Type 0} (persent : ℕ → ℕ → Real) where
  abbrev Posts : (c : ProgressCall) (d : Progress Real) → Type 0
  Posts c d =
      (my_progress_callback persent c d ≡ (
        record { ts = c.now; f_persent = persent c.dl_now c.dl_total },
        some (persent c.dl_now c.dl_total),
      ))
      × (d.ts + 1000 < c.now)

  callback_cases :
      (c : ProgressCall) (d : Progress Real)
      → d.ts ≤ c.now
      → c.now < 2 ^ 64
      → Posts c d
        ⊎ ((my_progress_callback persent c d ≡ (d, none))
            × (ltb 0 c.dl_total ≡ true → c.now ≤ d.ts + 1000))
  unfolding my_progress_callback
  callback_cases c d h small = elim (Bool-cases (ltb 0 c.dl_total && ltb 1000 (since c.now d.ts))) [
    | inl e ↦ inl (rw (e) refl, ground (arith, e))
    | inr e ↦ inr (rw (e) refl, λ k. ground (arith, e, k))
  ]

  stamps-nil : (d : Progress Real) → All IsRecent (stamps persent [] d)
  unfolding stamps
  stamps-nil d = tt

  stamps-cons :
      (c : ProgressCall) (calls : List ProgressCall) (d : Progress Real)
      (x : Progress Real × Option Real)
      → my_progress_callback persent c d ≡ x
      → (ltb 0 c.dl_total ≡ true → c.now ≤ x.0.ts + 1000)
      → All IsRecent (stamps persent calls x.0)
      → All IsRecent (stamps persent (c ∷ calls) d)
  unfolding stamps
  stamps-cons c calls d x e recent all = elim (Bool-cases (ltb 0 c.dl_total)) [
    | inl k ↦ rw (k, e) (recent k, all)
    | inr k ↦ rw (k, e) all
  ]

  -- The updates counted from the time stamp of the download.
  update_times-from_stamp :
      (calls : List ProgressCall) (d : Progress Real)
      → IsOrdered d.ts calls
      → IsSpaced d.ts (update_times persent calls d)
        × (d.ts + 1001 * length (update_times persent calls d) ≤ last_now d.ts calls)
        × All IsRecent (stamps persent calls d)
  unfolding update_times
  update_times-from_stamp [] d o = (tt, omega arith, stamps-nil d)
  update_times-from_stamp (c ∷ calls) d (a, b, o) = elim (callback_cases c d a b) [
    | inl (e, late) ↦
        let (s, n, all) = update_times-from_stamp calls _ o in
        let recent = stamps-cons c calls d _ e (λ k. omega arith) all in
        rw (e) ((late, s), omega (arith, n, late), recent)
    | inr (e, old) ↦
        let (s, n, all) = update_times-from_stamp calls d (IsOrdered-from d.ts c.now calls a o) in
        let recent = stamps-cons c calls d _ e old all in
        rw (e) (s, omega (arith, n, last_now-from d.ts c.now calls a), recent)
  ]

  update_times-from_start :
      (start : ℕ) (calls : List ProgressCall) (d : Progress Real)
      → d.ts ≤ start
      → IsOrdered start calls
      → start + 1001 * length (update_times persent calls d) ≤ last_now start calls + 1001
  unfolding update_times
  update_times-from_start start [] d h o = omega arith
  update_times-from_start start (c ∷ calls) d h (a, b, o) =
      elim (callback_cases c d (omega arith) b) [
        | inl (e, late) ↦
            let (s, n, all) =
              update_times-from_stamp calls
                (record { ts = c.now; f_persent = persent c.dl_now c.dl_total }) o in
            rw (e) (omega (arith, n, a))
        | inr (e, old) ↦
            let n = update_times-from_start c.now calls d (omega arith) o in
            rw (e) (omega (arith, n, a))
      ]

  -- In a download that starts at `start`, not before its time stamp, and whose clock does not run back,
  -- the updates of the progress are more than a second apart, the first of them from the time stamp, so
  -- that there is at most one more than the milliseconds that pass from `start` to the last call,
  -- divided by 1001; and after every call with a known total, the last update, or the time stamp before
  -- the first, is at most a second old.
  pub update_times-IsSpaced :
      (start : ℕ) (calls : List ProgressCall) (d : Progress Real)
      → d.ts ≤ start
      → IsOrdered start calls
      → IsSpaced d.ts (update_times persent calls d)
        × (start + 1001 * length (update_times persent calls d) ≤ last_now start calls + 1001)
        × All IsRecent (stamps persent calls d)
  update_times-IsSpaced start calls d h o =
      let (spaced, n, recent) =
        update_times-from_stamp calls d (IsOrdered-from d.ts start calls h o) in
      (spaced, update_times-from_start start calls d h o, recent)
