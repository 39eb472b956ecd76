-- ===== src/Raft/Consensus/Prefix.antt =====
-- Logs (raft/) that agree up to an index, and the last entry of a log.
use distrib_kv.Prelude.{
  ℕ, zero, suc, ◌-◌, ◌≤◌, ◌<◌, ◌≡◌, refl, sym, ◌∙◌, ◌⊎◌, inl, inr, List, [], ◌∷◌, none, some,
  Option-cases, arith, length, get_elem?, get_last?, lt_of_get_elem?,
}
use distrib_kv.Raft.Types.{LogEntry}
use distrib_kv.Raft.Node.{Raft, get_last_log_info}
use distrib_kv.Raft.Log.{
  Contiguous, log_at_bounds, log_at_below, log_at-eq-get_elem?, log_at-some, index-get_last?,
}
use distrib_kv.Raft.Replicas.Terms.{Terms, view, Extends}

abbrev pub Agree : ℕ → List LogEntry → List LogEntry → Type 0
Agree k l l' = (m : ℕ) → m ≤ k → view l m ≡ view l' m

pub Agree-trans : (k : ℕ) (a b c : List LogEntry) → Agree k a b → Agree k b c → Agree k a c
Agree-trans k a b c h h' m le = h m le ∙ h' m le

pub Agree-sym : (k : ℕ) (a b : List LogEntry) → Agree k a b → Agree k b a
Agree-sym k a b h m le = sym (h m le)

-- A leader of the term has put an entry at the index.
abbrev pub Entry : Terms → ℕ → ℕ → Type 0
Entry g t k = (e : LogEntry) × (view (g.log t) k ≡ some e) × (e.term ≡ t)

pub Entry-bounds : (g : Terms) (t k : ℕ) → Entry g t k → (0 < k) × (k ≤ length (g.log t))
Entry-bounds g t k (e, at, same) =
    let b = log_at_bounds 0 (g.log t) k e at in (b.0, omega (arith, b.1))

-- What the log of a term keeps when the history grows.
pub Agree-Extends :
    (g g' : Terms) (l : List LogEntry) (t k : ℕ)
    → Extends g g'
    → k ≤ length (g.log t)
    → Agree k l (g.log t)
    → Agree k l (g'.log t)
Agree-Extends g g' l t k x within h m le = elim (bottom k) [
  | inl q ↦ elim (bottom m) [
    | inl z ↦
        h m le
        ∙ rw
            (z, log_at_below 0 (g.log t) 0 (omega arith), log_at_below 0 (g'.log t) 0 (omega arith))
            refl
    | inr pos ↦ absurd (omega arith)
  ]
  | inr pos ↦
      let (e, at) = log_at-some 0 (g.log t) k pos (omega arith) in
      h m le ∙ sym (x.log t k e at m le)
]
  where
    bottom : (j : ℕ) → (j ≡ 0) ⊎ (0 < j)
    bottom zero = inl refl
    bottom (suc j) = inr (omega arith)

get_last?-some :
    (l : List LogEntry) (e : LogEntry) → get_last? l ≡ some e → get_elem? l (length l - 1) ≡ some e
get_last?-some [] e h = cc
get_last?-some (x ∷ []) e h = h
get_last?-some (x ∷ y ∷ ys) e h =
    let q : length (x ∷ y ∷ ys) - 1 ≡ suc (length (y ∷ ys) - 1) = omega arith in
    rw q (get_last?-some (y ∷ ys) e h)

get_last?-none : (l : List LogEntry) → get_last? l ≡ none → l ≡ []
get_last?-none [] h = refl
get_last?-none (x ∷ []) h = cc
get_last?-none (x ∷ y ∷ ys) h = absurd (let h' = get_last?-none (y ∷ ys) h in cc)

module _ {S : Type 0} where
  -- What a node says of its last entry in an election.
  pub last_info :
      (r : Raft S)
      → Contiguous 0 r.log
      → ((r.log ≡ []) × (get_last_log_info r ≡ (0, 0)))
        ⊎ ((e : LogEntry) × (view r.log (length r.log) ≡ some e)
            × (get_last_log_info r ≡ (length r.log, e.term)))
  unfolding get_last_log_info
  last_info r c = elim (Option-cases (get_last? r.log)) [
    | inl gone ↦ inl (get_last?-none r.log gone, rw (gone, get_last_log_info) refl)
    | inr (e, last) ↦
        let at = get_last?-some r.log e last in
        let idx = index-get_last? 0 r.log e c last in
        let pos : 0 < length r.log = omega (arith, lt_of_get_elem? r.log (length r.log - 1) e at) in
        let q : length r.log - 0 - 1 ≡ length r.log - 1 = omega arith in
        let there : view r.log (length r.log) ≡ some e =
          log_at-eq-get_elem? 0 r.log (length r.log) pos ∙ (rw q at) in
        let i : e.index ≡ length r.log = omega (arith, idx) in
        inr (e, there, rw (last, get_last_log_info) (rw i refl))
  ]
