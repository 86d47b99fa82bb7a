-- ===== src/Control/Tasks.antt =====
-- What the thread does with requests and their tasks, and what a request keeps true.
use vncc.Base.{
  ℕ, Bool, true, false, Option, Option-cases, none, some, List, [], ◌∷◌, ◌++◌, ◌≡◌, ◌≢◌, ◌⊎◌, inl,
  inr, ◌∙◌, sym, ap, refl, subst, arith,
}
use vncc.Control.{emplace, Callbacks, after_send, send_tcp_data, remove_cb}
use vncc.Control.Requests.{
  both, erase_self, erase_other, emplace_self, emplace_other, send-fresh, send-waiting,
}

-- What the thread does: a request, or the task that is due; the delay is the same for all, so they
-- are due in the order in which they were posted.
pub data Operation : Type 0 where
  request : ℕ → Bool → ℕ → ℕ → Operation
  next_task : Operation

abbrev pub run_first : List ℕ → Callbacks → Callbacks
run_first [] s = s
run_first (key ∷ rest) s = remove_cb key (record s { tasks = rest })

unfoldable pub run_task : Callbacks → Callbacks
run_task s = run_first s.tasks s

unfoldable pub operate : Operation → Callbacks → Callbacks
operate (request key sent succ fail) s = (send_tcp_data key sent succ fail s).0
operate next_task s = run_task s

unfoldable pub operate_all : List Operation → Callbacks → Callbacks
operate_all [] s = s
operate_all (o ∷ os) s = operate_all os (operate o s)

abbrev pub Waits : ℕ → List ℕ → Type 0
Waits k [] = ⊥
Waits k (x ∷ xs) = (k ≡ x) ⊎ Waits k xs

-- The two maps have the same keys, and each key has a task that will run.
pub record IsSound (s : Callbacks) : Type 0 where
  pub paired : (k : ℕ) → s.fail_cb_map k ≡ none → s.recv_cb_map k ≡ none
  pub timed : (k : ℕ) → (s.fail_cb_map k ≡ none) ⊎ Waits k s.tasks

same_or_not : (k j : ℕ) → (k ≡ j) ⊎ (k ≢ j)
same_or_not k j = ground arith

Waits-snoc : (k key : ℕ) (xs : List ℕ) → Waits k xs → Waits k (xs ++ (key ∷ []))
Waits-snoc k key [] w = absurd w
Waits-snoc k key (x ∷ xs) (inl e) = inl e
Waits-snoc k key (x ∷ xs) (inr w) = inr (Waits-snoc k key xs w)

Waits-last : (key : ℕ) (xs : List ℕ) → Waits key (xs ++ (key ∷ []))
Waits-last key [] = inl refl
Waits-last key (x ∷ xs) = inr (Waits-last key xs)

some≢none : (m : Option ℕ) (cb : ℕ) → m ≡ some cb → m ≢ none
some≢none m cb e f = ground (arith, e, f)

-- Maps that agree but for one key, which is in neither, and whose other keys still wait.
pub erased-IsSound :
    (key : ℕ) (s t : Callbacks)
    → IsSound s
    → t.recv_cb_map key ≡ none
    → t.fail_cb_map key ≡ none
    → ((j : ℕ) → j ≢ key → t.recv_cb_map j ≡ s.recv_cb_map j)
    → ((j : ℕ) → j ≢ key → t.fail_cb_map j ≡ s.fail_cb_map j)
    → ((j : ℕ) → j ≢ key → Waits j s.tasks → Waits j t.tasks)
    → IsSound t
erased-IsSound key s t v e f g h w = record {
  paired = λ k n. elim (same_or_not k key) [
    | inl q ↦ ap t.recv_cb_map q ∙ e
    | inr q ↦ g k q ∙ v.paired k (sym (h k q) ∙ n)
  ];
  timed = λ k. elim (same_or_not k key) [
    | inl q ↦ inl (ap t.fail_cb_map q ∙ f)
    | inr q ↦ elim (v.timed k) [ inl n ↦ inl (h k q ∙ n) | inr x ↦ inr (w k q x) ]
  ];
}

module _ (key succ fail : ℕ) (s : Callbacks) (v : IsSound s) where
  fresh-IsSound :
      (sent : Bool)
      → s.recv_cb_map key ≡ none
      → s.fail_cb_map key ≡ none
      → IsSound (after_send key sent (both key succ fail s)).0
  unfolding after_send
  fresh-IsSound true e f = record {
    paired = λ k n. elim (same_or_not k key) [
      | inl q ↦ absurd (
          some≢none (emplace s.fail_cb_map key fail k) fail
            (ap (emplace s.fail_cb_map key fail) q ∙ emplace_self s.fail_cb_map key fail f) n)
      | inr q ↦
          emplace_other s.recv_cb_map key k succ q
          ∙ v.paired k (sym (emplace_other s.fail_cb_map key k fail q) ∙ n)
    ];
    timed = λ k. elim (same_or_not k key) [
      | inl q ↦ inr (subst (λ j. Waits j (s.tasks ++ (key ∷ []))) (sym q) (Waits-last key s.tasks))
      | inr q ↦ elim (v.timed k) [
        | inl n ↦ inl (emplace_other s.fail_cb_map key k fail q ∙ n)
        | inr w ↦ inr (Waits-snoc k key s.tasks w)
      ]
    ];
  }
  fresh-IsSound false e f =
      erased-IsSound key s _ v (erase_self (emplace s.recv_cb_map key succ) key)
        (erase_self (emplace s.fail_cb_map key fail) key)
        (λ j q.
          erase_other (emplace s.recv_cb_map key succ) key j q
          ∙ emplace_other s.recv_cb_map key j succ q)
        (λ j q.
          erase_other (emplace s.fail_cb_map key fail) key j q
          ∙ emplace_other s.fail_cb_map key j fail q)
        (λ j q w. w)

  pub send_tcp_data-IsSound : (sent : Bool) → IsSound (send_tcp_data key sent succ fail s).0
  send_tcp_data-IsSound sent = elim (Option-cases (s.fail_cb_map key)) [
    | inl f ↦
        subst (λ r. IsSound r.0) (sym (send-fresh key succ fail s sent (v.paired key f) f))
          (fresh-IsSound sent (v.paired key f) f)
    | inr f ↦
        subst (λ r. IsSound r.0) (sym (send-waiting key succ fail s sent f.0 f.1))
          (erased-IsSound key s _ v (erase_self s.recv_cb_map key) (erase_self s.fail_cb_map key)
            (λ j q. erase_other s.recv_cb_map key j q) (λ j q. erase_other s.fail_cb_map key j q)
            (λ j q w. w))
  ]
