-- ===== src/Raft/File/Names.antt =====
-- The names of the two files of `FilePersister` (raft/persister.go) under a data directory.
use Prim.Native.Char.{code}
use Prim.Native.String.{◌++◌ as append_text}
use text.Mathlib.TextLemmas.{cons≢nil, append-ne-nil_of_right_ne-nil, cons-append, nil-append}
use distrib_kv.Prelude.{
  ℕ, All, List, [], ◌∷◌, Bool, ◌≡◌, ◌≢◌, refl, sym, ◌∙◌, ap, String, arith, inl, inr, Bool-cases,
  str_eq, str_eq_iff, true, false,
}
use distrib_kv.Config.Paths.{
  join_path, dir_path, clean_path, up_to_slash, join_parts, render, push_part, go_up, push_parts,
  split_path, is_rooted,
}
use distrib_kv.Config.Dirs.{parent, IsPlain, join_path-parent}
use distrib_kv.Raft.File.{temp_file, new_file_persister}
use distrib_kv.Raft.File.RoundTrip.{Separate}

-- The codes of the last two characters of a text, behind two others.
ending : ℕ × ℕ → String → ℕ × ℕ
ending e String.[] = e
ending e (String.◌∷◌ c s) = ending (e.1, code c) s

ending-append : (e : ℕ × ℕ) (s t : String) → ending e (append_text s t) ≡ ending (ending e s) t
unfolding ending
ending-append e String.[] t = rw (nil-append t) refl
ending-append e (String.◌∷◌ c s) t = rw (cons-append c s t) (ending-append (e.1, code c) s t)

-- Texts that end differently.
apart : (s t : String) (a b : ℕ × ℕ) → ending (0, 0) s ≡ a → ending (0, 0) t ≡ b → a.0 ≢ b.0 → s ≢ t
apart s t a b h k ne e = ne (ap (λ (x : ℕ × ℕ). x.0) (sym h ∙ ap (ending (0, 0)) e ∙ k))

-- The name of a file in a directory ends as the file's own name does.
ending-join :
    (dir w : String) → dir ≢ "" → IsPlain w → (p : String) × (join_path dir w ≡ append_text p w)
ending-join dir w h p = (
  parent (is_rooted dir) (push_parts (is_rooted dir) [] (split_path dir)),
  join_path-parent dir w h p,
)

state-IsPlain : IsPlain "raft-state.json"
unfolding split_path
state-IsPlain = record { part = refl; nonempty = refl; no_dot = refl; no_dots = refl }

snapshot-IsPlain : IsPlain "snapshot.bin"
unfolding split_path
snapshot-IsPlain = record { part = refl; nonempty = refl; no_dot = refl; no_dots = refl }

abbrev NonemptyParts : List String → Type 0
NonemptyParts = All (λ w. w ≢ "")

go_up-NonemptyParts :
    (rooted : Bool) (ps : List String) → NonemptyParts ps → NonemptyParts (go_up rooted ps)
unfolding go_up
go_up-NonemptyParts true [] h = tt
go_up-NonemptyParts false [] h = (λ e. cons≢nil e, tt)
go_up-NonemptyParts rooted (p ∷ ps) h = elim (Bool-cases (str_eq p "..")) [
  | inl e ↦ rw e (λ k. cons≢nil k, h)
  | inr e ↦ rw e h.1
]

push_part-NonemptyParts :
    (rooted : Bool) (ps : List String) (w : String)
    → NonemptyParts ps
    → NonemptyParts (push_part rooted ps w)
unfolding push_part
push_part-NonemptyParts rooted ps w h = elim (Bool-cases (str_eq w "")) [
  | inl e ↦ rw e h
  | inr e ↦ elim (Bool-cases (str_eq w ".")) [
    | inl dot ↦ rw (e, dot) h
    | inr no_dot ↦ elim (Bool-cases (str_eq w "..")) [
      | inl dots ↦ rw (e, no_dot, dots) (go_up-NonemptyParts rooted ps h)
      | inr name ↦ rw (e, no_dot, name) (λ k. cc (e, (str_eq_iff w "").1 k), h)
    ]
  ]
]

push_parts-NonemptyParts :
    (rooted : Bool) (ps ws : List String)
    → NonemptyParts ps
    → NonemptyParts (push_parts rooted ps ws)
unfolding push_parts
push_parts-NonemptyParts rooted ps [] h = h
push_parts-NonemptyParts rooted ps (w ∷ ws) h =
    push_parts-NonemptyParts rooted (push_part rooted ps w) ws
      (push_part-NonemptyParts rooted ps w h)

join_parts-ne : (p : String) (ps : List String) → p ≢ "" → join_parts (p ∷ ps) ≢ ""
unfolding join_parts
join_parts-ne p [] h = h
join_parts-ne p (q ∷ ps) h =
    append-ne-nil_of_right_ne-nil (join_parts (q ∷ ps)) (append-ne-nil_of_right_ne-nil "/" h)

render-ne : (rooted : Bool) (ps : List String) → NonemptyParts ps → render rooted ps ≢ ""
unfolding render
render-ne true ps h = λ e. cons≢nil (sym (cons-append "/" "" (join_parts ps)) ∙ e)
render-ne false [] h = λ e. cons≢nil e
render-ne false (p ∷ ps) h = join_parts-ne p ps h.0

clean_path-ne : (s : String) → clean_path s ≢ ""
unfolding clean_path
clean_path-ne s =
    let rooted = is_rooted s in
    render-ne rooted (push_parts rooted [] (split_path s))
      (push_parts-NonemptyParts rooted [] (split_path s) tt)

dir_path-ne : (s : String) → dir_path s ≢ ""
unfolding dir_path
dir_path-ne s = clean_path-ne (up_to_slash s)

join-ending :
    (dir w : String)
    → dir ≢ ""
    → IsPlain w
    → (p : String) × (ending (0, 0) (join_path dir w) ≡ ending (ending (0, 0) p) w)
join-ending dir w h k = let (p, e) = ending-join dir w h k in (p, rw e (ending-append (0, 0) p w))

temp-ending : (f : String) → ending (0, 0) (temp_file f) ≡ (109, 112)
unfolding ending
temp-ending f = ending-append (0, 0) f ".tmp"

state-ending :
    (dir : String) → dir ≢ "" → ending (0, 0) (join_path dir "raft-state.json") ≡ (111, 110)
unfolding ending
state-ending dir h = (join-ending dir "raft-state.json" h state-IsPlain).1

snapshot-ending :
    (dir : String) → dir ≢ "" → ending (0, 0) (join_path dir "snapshot.bin") ≡ (105, 110)
unfolding ending
snapshot-ending dir h = (join-ending dir "snapshot.bin" h snapshot-IsPlain).1

-- Under a data directory, the two files and their temporary files are four different ones.
pub new_file_persister-Separate :
    (dir : String) → dir ≢ "" → Separate (new_file_persister (join_path dir "raft-state.json"))
unfolding new_file_persister
new_file_persister-Separate dir h =
    let s = join_path dir "raft-state.json" in
    let n = join_path (dir_path s) "snapshot.bin" in
    let es = state-ending dir h in
    let en = snapshot-ending (dir_path s) (dir_path-ne s) in
    record {
      state_temp =
          apart (temp_file s) s (109, 112) (111, 110) (temp-ending s) es (λ e. omega arith);
      state_temp_snapshot =
          apart (temp_file s) n (109, 112) (105, 110) (temp-ending s) en (λ e. omega arith);
      snapshot_temp =
          apart (temp_file n) n (109, 112) (105, 110) (temp-ending n) en (λ e. omega arith);
      snapshot_temp_state =
          apart (temp_file n) s (109, 112) (111, 110) (temp-ending n) es (λ e. omega arith);
      files = apart s n (111, 110) (105, 110) es en (λ e. omega arith);
      files' = apart n s (105, 110) (111, 110) en es (λ e. omega arith);
    }
