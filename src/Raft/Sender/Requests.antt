-- ===== src/Raft/Sender/Requests.antt =====
-- What a leader sends (`sendAppendEntries` of raft/replication.go), before and after it has compacted
-- its log.
use distrib_kv.Prelude.{
  ℕ, zero, suc, ◌+◌, ◌-◌, ◌≤◌, ◌<◌, ◌≡◌, refl, sym, ap, ◌∙◌, ◌⊎◌, inl, inr, List, [], ◌∷◌, some,
  true, ◌==◌, Bool-cases, Option-cases, arith, length, get_elem?, nat_key,
}
use distrib_kv.Raft.Types.{LogEntry, AppendEntriesRequest, AppendEntriesResponse, reply}
use distrib_kv.Raft.Node.{Raft, log_at}
use distrib_kv.Raft.Sender.{send, collect, prev_of, build_request}
use distrib_kv.Raft.Log.{Contiguous, log_at-some, log_at_below, index-log_at}
use distrib_kv.Raft.Replication.{handle_append_entries}
use distrib_kv.Raft.Replication.Matching.{Describes, LogMatching, handle_append_entries_agrees}
use distrib_kv.Raft.Persister.{Persister}

-- From an index inside the log, `collect` takes the entries up to the end of the log.
pub record Collected (base : ℕ) (log : List LogEntry) (i : ℕ) (es : List LogEntry) : Type 0 where
  pub consecutive : (p : ℕ) → i ≡ suc p → Contiguous p es
  pub entries : (k : ℕ) (e : LogEntry) → get_elem? es k ≡ some e → log_at base log (i + k) ≡ some e

collect-Collected :
    (base k : ℕ) (log : List LogEntry) (i : ℕ)
    → Contiguous base log
    → Collected base log i (collect base k log i)
unfolding collect
collect-Collected base zero log i c = record { consecutive = λ p h. tt; entries = λ k e h. cc }
collect-Collected base (suc k) log i c = elim (Option-cases (log_at base log i)) [
  | inl e ↦ rw (e, collect) (record { consecutive = λ p h. tt; entries = λ k e h. cc })
  | inr (x, e) ↦
      let rec = collect-Collected base k log (i + 1) c in
      let idx = index-log_at base log i x c e in
      rw (e, collect)
        (record {
          consecutive = λ p h. (idx ∙ h, rec.consecutive (suc p) (omega arith));
          entries = collected_entries base log i x (collect base k log (i + 1)) e rec.entries;
        })
]
  where
    collected_entries :
        (base : ℕ) (log : List LogEntry) (i : ℕ) (x : LogEntry) (es : List LogEntry)
        → log_at base log i ≡ some x
        → ((k : ℕ) (e : LogEntry) → get_elem? es k ≡ some e → log_at base log (i + 1 + k) ≡ some e)
        → (k : ℕ) (e : LogEntry) → get_elem? (x ∷ es) k ≡ some e
        → log_at base log (i + k) ≡ some e
    collected_entries base log i x es found later zero e h =
        let q : i + 0 ≡ i = omega arith in rw q (found ∙ h)
    collected_entries base log i x es found later (suc k) e h =
        let q : i + suc k ≡ i + 1 + k = omega arith in rw q (later k e h)

length-collect :
    (base k : ℕ) (log : List LogEntry) (i : ℕ)
    → base < i
    → i + k ≤ base + length log + 1
    → length (collect base k log i) ≡ k
unfolding collect
length-collect base zero log i lo hi = refl
length-collect base (suc k) log i lo hi =
    let (x, e) = log_at-some base log i lo (omega arith) in
    let rec = length-collect base k log (i + 1) (omega arith) (omega arith) in
    rw (e, collect) (ap suc rec)

-- The lookup of prevLogTerm: the start of the log, or the entry before `next`.
prev_of_cases :
    (base : ℕ) (log : List LogEntry) (next : ℕ)
    → 1 ≤ next
    → ((prev_of base log next).0 + 1 ≡ (prev_of base log next).2)
      × (((prev_of base log next).0 ≡ 0)
          ⊎ ((e : LogEntry) × (log_at base log (prev_of base log next).0 ≡ some e)
              × (e.term ≡ (prev_of base log next).1)))
unfolding prev_of
prev_of_cases base log next lo = elim (Bool-cases (next - 1 == 0)) [
  | inl first ↦ (ground arith, inl (ground arith))
  | inr later ↦ elim (Option-cases (log_at base log (next - 1))) [
    | inl gone ↦ (ground arith, inl (ground arith))
    | inr (x, e) ↦ (ground arith, inr (x, ground arith, ground arith))
  ]
]

prev_of_inside :
    (base : ℕ) (log : List LogEntry) (next : ℕ)
    → base ≡ 0
    → 1 ≤ next
    → next ≤ length log + 1
    → (prev_of base log next).2 ≡ next
unfolding prev_of
prev_of_inside base log next b lo hi = elim (Bool-cases (next - 1 == 0)) [
  | inl first ↦ ground arith
  | inr later ↦
      let (x, e) = log_at-some base log (next - 1) (ground arith) (omega arith) in ground arith
]

pub prev_of_at_base :
    (base : ℕ) (log : List LogEntry) → 0 < base → prev_of base log (base + 1) ≡ (0, 0, 1)
unfolding prev_of
prev_of_at_base base log pos =
    let q : base + 1 - 1 ≡ base = omega arith in
    let none_there = log_at_below base log base (omega arith) in rw q (ground (arith, none_there))

pub collect_below :
    (base k : ℕ) (log : List LogEntry) (i : ℕ) → i ≤ base → collect base k log i ≡ []
unfolding collect
collect_below base zero log i h = refl
collect_below base (suc k) log i h = rw (log_at_below base log i h, collect)

module _ {S : Type 0} where
  request_Describes :
      (r : Raft S) (req : AppendEntriesRequest) (k prev term next : ℕ)
      → Contiguous r.log_base r.log
      → prev + 1 ≡ next
      → (prev ≡ 0) ⊎ ((e : LogEntry) × (log_at r.log_base r.log prev ≡ some e) × (e.term ≡ term))
      → req.prev_log_index ≡ prev
      → req.prev_log_term ≡ term
      → req.entries ≡ collect r.log_base k r.log next
      → Describes (log_at r.log_base r.log) req
  request_Describes r req k prev term next c q found p t es =
      let w = collect-Collected r.log_base k r.log next c in
      record {
        consecutive = rw (p, es) (w.consecutive prev (omega arith));
        entries = λ j e h.
            let n : req.prev_log_index + 1 + j ≡ next + j = omega arith in
            rw n (w.entries j e (rw es at h));
        prev = λ pos. elim found [
          | inl zero_prev ↦ absurd (omega arith)
          | inr (e, at, same) ↦ (e, rw p at, same ∙ sym t)
        ];
      }

  -- A request that a leader with a log of consecutive indices builds carries consecutive entries of
  -- that log behind prevLogIndex, the term of the log there unless prevLogIndex is 0, and the given
  -- term and commit index.
  pub build_request-Describes :
      (term commit : ℕ) (r : Raft S) (next : ℕ) {req : AppendEntriesRequest}
      → Contiguous r.log_base r.log
      → 1 ≤ next
      → build_request term commit r next ≡ send req
      → Describes (log_at r.log_base r.log) req × (req.term ≡ term) × (req.leader_commit ≡ commit)
  unfolding build_request
  build_request-Describes term commit r next {req} c lo h =
      let prev = prev_of r.log_base r.log next in
      let (q, found) = prev_of_cases r.log_base r.log next lo in
      (
        request_Describes r req (length r.log + 1 - prev.2) prev.0 prev.1 prev.2 c q found
            (ground arith) (ground arith) (ground arith),
        ground arith,
        ground arith,
      )

  -- Without compaction, for a nextIndex from 1 to one past the log, the request starts at nextIndex
  -- and reaches the end of the log.
  pub build_request_complete :
      (term commit : ℕ) (r : Raft S) (next : ℕ)
      → r.log_base ≡ 0
      → 1 ≤ next
      → next ≤ length r.log + 1
      → (req : AppendEntriesRequest) × (build_request term commit r next ≡ send req)
        × (req.prev_log_index + 1 ≡ next)
        × (req.prev_log_index + length req.entries ≡ length r.log)
  unfolding build_request
  build_request_complete term commit r next b lo hi =
      let q = prev_of_inside r.log_base r.log next b lo hi in
      let (p, _) = prev_of_cases r.log_base r.log next lo in
      let prev = prev_of r.log_base r.log next in
      let n =
        length-collect r.log_base (length r.log + 1 - prev.2) r.log prev.2 (omega arith)
          (omega arith) in
      (
        record {
          term = term;
          leader_id = r.server_id;
          prev_log_index = prev.0;
          prev_log_term = prev.1;
          entries = collect r.log_base (length r.log + 1 - prev.2) r.log prev.2;
          leader_commit = commit;
        },
        ground arith,
        omega arith,
        omega (arith, n),
      )

  -- A leader and a follower have consecutive indices from their bases, and their logs match: where
  -- both hold an entry of one term at an index, they agree on whatever both hold up to it. The
  -- follower answers a request that the leader built, whose prevLogIndex is not below the
  -- follower's base, with success. Then at every index above the follower's base and up to the last
  -- entry of the request, where the leader has an entry, the follower has the same entry.
  pub accepted_request_agrees :
      (P : Persister S) (term commit next : ℕ) (l f : Raft S) {req : AppendEntriesRequest}
      {a : AppendEntriesResponse} {f' : Raft S}
      → Contiguous l.log_base l.log
      → Contiguous f.log_base f.log
      → LogMatching (log_at f.log_base f.log) (log_at l.log_base l.log)
      → 1 ≤ next
      → build_request term commit l next ≡ send req
      → f.log_base ≤ req.prev_log_index
      → handle_append_entries P req f ≡ (reply a, f')
      → a.success ≡ true
      → (j : ℕ) (b : LogEntry) → f.log_base < j
      → j ≤ req.prev_log_index + length req.entries
      → log_at l.log_base l.log j ≡ some b
      → log_at f'.log_base f'.log j ≡ some b
  accepted_request_agrees P term commit next l f {req} cl cf match lo built base ran ok =
      handle_append_entries_agrees P req f ran ok
        (build_request-Describes term commit l next cl lo built).0 match cf base
