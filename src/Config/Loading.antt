-- ===== src/Config/Loading.antt =====
-- What `Load` of config/config.go returns.

use text.Mathlib.TextLemmas.{append_cancel_left, append-ne-nil_of_right_ne-nil}
use distrib_kv.Prelude.{
  ℕ, ◌≡◌, ◌≢◌, refl, sym, ◌∙◌, ap, List, [], ◌∷◌, Option, some, String, str_eq, str_eq_iff, ℤ, pos,
  negsuc, ◌≤ℤ◌, All, arith, Bool-cases, Option-cases, inl, inr,
}
use distrib_kv.Config.{
  Config, Node, validate, resolve_node, resolve_nodes, resolve_data_dirs, loaded, load,
}
use distrib_kv.Config.Paths.{join_path, itoa, split_path, is_rooted, push_parts}
use distrib_kv.Config.Dirs.{parent, join_path-parent}
use distrib_kv.Config.Digits.{itoa_inj, itoa-IsPlain}
use distrib_kv.Config.Valid.{IsEntry, Distinct, IsValid, validate_iff}

-- No two nodes have the same data directory.
abbrev pub DistinctDirs : List Node → Type 0
DistinctDirs [] = Unit
DistinctDirs (n ∷ ns) = All (λ m. m.data_dir ≢ n.data_dir) ns × DistinctDirs ns

join_path_inj :
    (dir : String) (i j : ℤ)
    → dir ≢ ""
    → pos 0 ≤ℤ i
    → pos 0 ≤ℤ j
    → join_path dir (itoa i) ≡ join_path dir (itoa j)
    → i ≡ j
join_path_inj dir (negsuc i) j h p q e = absurd (omega arith)
join_path_inj dir (pos i) (negsuc j) h p q e = absurd (omega arith)
join_path_inj dir (pos i) (pos j) h p q e =
    let left = parent (is_rooted dir) (push_parts (is_rooted dir) [] (split_path dir)) in
    ap pos (
      itoa_inj i j (
        append_cancel_left left (itoa (pos i)) (itoa (pos j)) (
          sym (join_path-parent dir (itoa (pos i)) h (itoa-IsPlain i))
          ∙ e
          ∙ join_path-parent dir (itoa (pos j)) h (itoa-IsPlain j))))

join_path-ne : (dir : String) (i : ℤ) → dir ≢ "" → pos 0 ≤ℤ i → join_path dir (itoa i) ≢ ""
join_path-ne dir (negsuc i) h p = absurd (omega arith)
join_path-ne dir (pos i) h p =
    let q = itoa-IsPlain i in
    let left = parent (is_rooted dir) (push_parts (is_rooted dir) [] (split_path dir)) in
    rw (join_path-parent dir (itoa (pos i)) h q) (
      append-ne-nil_of_right_ne-nil left (λ e. cc (q.nonempty, (str_eq_iff (itoa (pos i)) "").1 e)))

resolve_node_keeps :
    (dir : String) (n : Node)
    → ((resolve_node dir n).id ≡ n.id) × ((resolve_node dir n).listen_addr ≡ n.listen_addr)
unfolding resolve_node
resolve_node_keeps dir n = ground arith

resolve_node_dir :
    (dir : String) (n : Node) → dir ≢ "" → IsEntry n → (resolve_node dir n).data_dir ≢ ""
unfolding resolve_node
resolve_node_dir dir n h e = elim (Bool-cases (str_eq n.data_dir "")) [
  | inl empty ↦ rw empty (join_path-ne dir n.id h e.0)
  | inr own ↦ rw own (λ k. cc (own, (str_eq_iff n.data_dir "").1 k))
]

resolve_node_default :
    (dir : String) (n : Node)
    → n.data_dir ≡ ""
    → (resolve_node dir n).data_dir ≡ join_path dir (itoa n.id)
unfolding resolve_node
resolve_node_default dir n h = rw ((str_eq_iff n.data_dir "").1 h) refl

resolve_nodes-entries :
    (dir : String) (ns : List Node)
    → dir ≢ ""
    → All IsEntry ns
    → All IsEntry (resolve_nodes dir ns) × All (λ n. n.data_dir ≢ "") (resolve_nodes dir ns)
unfolding resolve_nodes
resolve_nodes-entries dir [] h es = (tt, tt)
resolve_nodes-entries dir (n ∷ ns) h es =
    let (i, a) = resolve_node_keeps dir n in
    let ih = resolve_nodes-entries dir ns h es.1 in
    (((rw i es.0.0, rw a es.0.1), ih.0), (resolve_node_dir dir n h es.0, ih.1))

resolve_nodes-fresh :
    (dir : String) (n : Node) (ns : List Node)
    → All (λ m. m.id ≢ n.id) ns
    → All (λ m. m.id ≢ (resolve_node dir n).id) (resolve_nodes dir ns)
unfolding resolve_nodes
resolve_nodes-fresh dir n [] h = tt
resolve_nodes-fresh dir n (m ∷ ns) h = (
  rw ((resolve_node_keeps dir n).0, (resolve_node_keeps dir m).0) h.0,
  resolve_nodes-fresh dir n ns h.1,
)

resolve_nodes-Distinct :
    (dir : String) (ns : List Node) → Distinct ns → Distinct (resolve_nodes dir ns)
unfolding resolve_nodes
resolve_nodes-Distinct dir [] h = tt
resolve_nodes-Distinct dir (n ∷ ns) h =
    (resolve_nodes-fresh dir n ns h.0, resolve_nodes-Distinct dir ns h.1)

resolve_nodes-ne : (dir : String) (ns : List Node) → ns ≢ [] → resolve_nodes dir ns ≢ []
unfolding resolve_nodes
resolve_nodes-ne dir [] h = absurd (h refl)
resolve_nodes-ne dir (n ∷ ns) h = λ e. cc

resolve_data_dirs-IsValid :
    (c : Config)
    → IsValid c
    → IsValid (resolve_data_dirs c) × All (λ n. n.data_dir ≢ "") (resolve_data_dirs c).nodes
unfolding resolve_data_dirs
resolve_data_dirs-IsValid c v =
    let dir = c.cluster.data_dir in
    let (entries, dirs) = resolve_nodes-entries dir c.nodes v.data_dir v.entries in
    (
      record {
        nonempty = resolve_nodes-ne dir c.nodes v.nonempty;
        heartbeat = v.heartbeat;
        timeout = v.timeout;
        timeouts = v.timeouts;
        data_dir = v.data_dir;
        entries = entries;
        distinct = resolve_nodes-Distinct dir c.nodes v.distinct;
      },
      dirs,
    )

-- A configuration that is loaded comes from the file that was read and decoded, whose contents were
-- valid, with the directories resolved.
load_cases :
    (unmarshal : List ℕ → Option Config) (bytes : List ℕ) {c : Config}
    → load unmarshal (some bytes) ≡ loaded c
    → (d : Config) × (unmarshal bytes ≡ some d) × IsValid d × (c ≡ resolve_data_dirs d)
unfolding load
load_cases unmarshal bytes h = elim (Option-cases (unmarshal bytes)) [
  | inl e ↦ ground arith
  | inr (d, e) ↦ elim (Option-cases (validate d)) [
    | inl good ↦ (d, e, (validate_iff d).0 good, ground arith)
    | inr (x, bad) ↦ ground arith
  ]
]

-- A configuration that `Load` returns is valid, and every node in it has a data directory.
pub load-IsValid :
    (unmarshal : List ℕ → Option Config) (bytes : List ℕ) {c : Config}
    → load unmarshal (some bytes) ≡ loaded c
    → IsValid c × All (λ n. n.data_dir ≢ "") c.nodes
load-IsValid unmarshal bytes h =
    let (d, e, v, same) = load_cases unmarshal bytes h in rw same (resolve_data_dirs-IsValid d v)

resolve_nodes-apart :
    (dir : String) (n : Node) (ns : List Node)
    → dir ≢ ""
    → IsEntry n
    → All IsEntry ns
    → n.data_dir ≡ ""
    → All (λ m. m.data_dir ≡ "") ns
    → All (λ m. m.id ≢ n.id) ns
    → All (λ m. m.data_dir ≢ (resolve_node dir n).data_dir) (resolve_nodes dir ns)
unfolding resolve_nodes
resolve_nodes-apart dir n [] h e es empty all ne = tt
resolve_nodes-apart dir n (m ∷ ns) h e es empty all ne = (
  λ k. ne.0 (
      join_path_inj dir m.id n.id h es.0.0 e.0
        (sym (resolve_node_default dir m all.0) ∙ k ∙ resolve_node_default dir n empty)),
  resolve_nodes-apart dir n ns h e es.1 empty all.1 ne.1,
)

resolve_nodes-DistinctDirs :
    (dir : String) (ns : List Node)
    → dir ≢ ""
    → All IsEntry ns
    → Distinct ns
    → All (λ m. m.data_dir ≡ "") ns
    → DistinctDirs (resolve_nodes dir ns)
unfolding resolve_nodes
resolve_nodes-DistinctDirs dir [] h es d all = tt
resolve_nodes-DistinctDirs dir (n ∷ ns) h es d all = (
  resolve_nodes-apart dir n ns h es.0 es.1 all.0 all.1 d.0,
  resolve_nodes-DistinctDirs dir ns h es.1 d.1 all.1,
)

-- If the decoded file gives no node a data directory of its own, then in the configuration that
-- `Load` returns no two nodes have the same data directory.
pub load-DistinctDirs :
    (unmarshal : List ℕ → Option Config) (bytes : List ℕ) {c d : Config}
    → unmarshal bytes ≡ some d
    → All (λ n. n.data_dir ≡ "") d.nodes
    → load unmarshal (some bytes) ≡ loaded c
    → DistinctDirs c.nodes
unfolding resolve_data_dirs
load-DistinctDirs unmarshal bytes {c} {d} e empty h =
    let (d', e', v, same) = load_cases unmarshal bytes h in
    let decoded : d' ≡ d = ground arith in
    let v' : IsValid d = rw (← decoded) v in
    rw (same, decoded)
      (resolve_nodes-DistinctDirs d.cluster.data_dir d.nodes v'.data_dir v'.entries v'.distinct
        empty)
