-- ===== src/Server/Recovery.antt =====
-- What a node that server/run.go starts has of its earlier life.

use distrib_kv.Prelude.{ℕ, ◌≡◌, ◌≢◌, refl, ◌∙◌, List, Option, some, true, ℤ, nat_key, arith}
use distrib_kv.Config.{Config, Node, node_by_id, other_nodes}
use distrib_kv.Config.Valid.{IsValid}
use distrib_kv.Raft.Types.{LogEntry}
use distrib_kv.Raft.Node.{Raft}
use distrib_kv.Raft.Lifecycle.{fresh, load_persisted_state, start}
use distrib_kv.Raft.Election.Votes.{load_persisted_state_saved}
use distrib_kv.Raft.File.{Disk, no_fault, FileCodec, new_file_persister, file_save}
use distrib_kv.Raft.File.Interface.{file_persister, save}
use distrib_kv.Raft.File.Names.{new_file_persister-Separate}
use distrib_kv.Server.{Process, started, state_path, raft_config, start_from_config}
use distrib_kv.Raft.File.RoundTrip.{Separate}
use distrib_kv.Server.Start.{process, start_from_config-eq, start_node-eq, find_node-IsEntry}

module _ {S : Type 0} where
  start_fields :
      (r : Raft S)
      → ((start r).current_term ≡ r.current_term)
        × ((start r).voted_for ≡ r.voted_for)
        × ((start r).log ≡ r.log)
  unfolding start
  start_fields r = ground arith

-- Under a data directory, the files of the node's persister are four different ones.
pub state-Separate : (n : Node) → n.data_dir ≢ "" → Separate (new_file_persister (state_path n))
unfolding state_path
state-Separate n h = new_file_persister-Separate n.data_dir h

-- A node of a valid configuration that has a data directory, started on a disk where a
-- FilePersister under that directory has saved a state without an error, starts with the term, the
-- vote and the log that were saved.
pub start_recovers :
    (k : FileCodec) (c : Config) (i : ℤ) {n : Node} (dir : n.data_dir ≢ "") (t : ℕ) (v : Option ℕ)
    (l : List LogEntry) (d : Disk) {d' : Disk}
    → IsValid c
    → node_by_id i c ≡ some n
    → file_save k no_fault (new_file_persister (state_path n)) t v l d ≡ (true, d')
    → let P = file_persister k (new_file_persister (state_path n)) (state-Separate n dir) in
      (p : Process Disk) × (start_from_config P d' true c i ≡ started p)
      × (p.rf.current_term ≡ t)
      × (p.rf.voted_for ≡ v)
      × (p.rf.log ≡ l)
unfolding node_by_id save
start_recovers k c i {n} dir t v l d {d'} valid h written =
    let f = new_file_persister (state_path n) in
    let P = file_persister k f (state-Separate n dir) in
    let saved : P.save t v l d ≡ some d' = rw written refl in
    let rc = raft_config c n (other_nodes n.id c.nodes) in
    let (et, ev, el) = load_persisted_state_saved P rc d t v l saved in
    let (st, sv, sl) = start_fields (load_persisted_state P (fresh rc d')) in
    (
      process P d' c n,
      start_from_config-eq P d' c i h
          ∙ start_node-eq P d' c n valid (find_node-IsEntry i c.nodes valid.entries h),
      st ∙ et,
      sv ∙ ev,
      sl ∙ el,
    )
