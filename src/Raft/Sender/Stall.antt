-- ===== src/Raft/Sender/Stall.antt =====
-- What a leader with a compacted log sends (raft/replication.go, sendAppendEntries) to a peer that has
-- everything up to the base.
use distrib_kv.Prelude.{
  ℕ, ◌+◌, ◌-◌, ◌≤◌, ◌<◌, ◌≡◌, ap, inl, inr, [], some, true, false, ltb, arith, length, lookup,
  insert, nat_key, lookup-insert, max,
}
use distrib_kv.Raft.Types.{LogEntry, AppendEntriesRequest, AppendEntriesResponse}
use distrib_kv.Raft.Node.{Raft, Peer}
use distrib_kv.Raft.Sender.{send, build_request, plan_append, ack_peer, on_append_reply}
use distrib_kv.Raft.Replication.{update_commit_index}
use distrib_kv.Raft.Replication.Commit.{update_commit_index_safe}
use distrib_kv.Raft.Sender.Requests.{prev_of_at_base, collect_below}

module _ {S : Type 0} where
  -- Once the log has been compacted, a peer that has everything up to the base is sent nothing.
  pub build_request_at_base :
      (term commit : ℕ) (r : Raft S)
      → 0 < r.log_base
      → build_request term commit r (r.log_base + 1)
        ≡ send (record {
          term = term;
          leader_id = r.server_id;
          prev_log_index = 0;
          prev_log_term = 0;
          entries = [];
          leader_commit = commit;
        })
  unfolding build_request
  build_request_at_base term commit r pos =
      let q : r.log_base + 1 - 1 ≡ r.log_base = omega arith in
      let here : ltb r.log_base r.log_base ≡ false = ground arith in
      rw (
        q,
        here,
        prev_of_at_base r.log_base r.log pos,
        collect_below r.log_base (length r.log + 1 - 1) r.log 1 pos,
      )

  plan_append_found :
      (peer term commit : ℕ) (r : Raft S) (p : Peer) {req : AppendEntriesRequest}
      → lookup peer r.peers ≡ some p
      → plan_append peer term commit r ≡ send req
      → build_request term commit r (max p.next_index 1) ≡ send req
  unfolding plan_append
  plan_append_found peer term commit r p found h = ground arith

  request_empty :
      (term commit : ℕ) (r : Raft S) (req : AppendEntriesRequest) {x : AppendEntriesRequest}
      → build_request term commit r (r.log_base + 1) ≡ send req
      → build_request term commit r (r.log_base + 1) ≡ send x
      → (req.prev_log_index ≡ x.prev_log_index) × (req.entries ≡ x.entries)
  request_empty term commit r req h k = ground arith

  peers-update_commit_index : (r : Raft S) → (update_commit_index r).peers ≡ r.peers
  peers-update_commit_index r = elim (update_commit_index_safe r) [
    | inl e ↦ ap (λ (x : Raft S). x.peers) e
    | inr (_, a) ↦ ap (λ (x : Raft S). x.peers) a.rest
  ]

  -- A success for an empty request from the start of the log moves no index of the peer.
  on_append_reply_idle :
      (peer : ℕ) (req : AppendEntriesRequest) (resp : AppendEntriesResponse) (r : Raft S) (p : Peer)
      → lookup peer r.peers ≡ some p
      → p.match_index ≡ r.log_base
      → p.next_index ≡ r.log_base + 1
      → req.prev_log_index ≡ 0
      → req.entries ≡ []
      → resp.success ≡ true
      → resp.term ≤ r.current_term
      → lookup peer (on_append_reply peer req resp r).0.peers ≡ some p
  unfolding on_append_reply ack_peer
  on_append_reply_idle peer req resp r p found at next prev es ok low =
      let acked = insert peer (ack_peer (req.prev_log_index + length req.entries) p) r.peers in
      ground (
        arith,
        ap (length {A = LogEntry}) es,
        peers-update_commit_index (record r { peers = acked }),
        lookup-insert peer peer (ack_peer (req.prev_log_index + length req.entries) p) r.peers,
      )

  -- Once a leader has compacted its log, a peer that has acknowledged exactly the entries up to the
  -- base is sent a request without entries, and its success leaves the peer's indices as they are.
  pub replication_stalls :
      (peer term commit : ℕ) (r : Raft S) (p : Peer) (req : AppendEntriesRequest)
      (resp : AppendEntriesResponse)
      → 0 < r.log_base
      → lookup peer r.peers ≡ some p
      → p.match_index ≡ r.log_base
      → p.next_index ≡ r.log_base + 1
      → plan_append peer term commit r ≡ send req
      → resp.success ≡ true
      → resp.term ≤ r.current_term
      → (req.entries ≡ []) × (lookup peer (on_append_reply peer req resp r).0.peers ≡ some p)
  replication_stalls peer term commit r p req resp pos found at next planned ok low =
      let start : max p.next_index 1 ≡ r.log_base + 1 = omega arith in
      let built = plan_append_found peer term commit r p found planned in
      let empty = build_request_at_base term commit r pos in
      let (prev, es) = request_empty term commit r req (rw start at built) empty in
      (es, on_append_reply_idle peer req resp r p found at next prev es ok low)
