-- ===== src/Config/Dirs.antt =====
-- The data directories that config/config.go gives to nodes without one of their own.
use Prim.Native.Char.{Char, code}
use Prim.Native.String.{◌++◌ as append_text}
use text.Mathlib.TextLemmas.{cons-append, nil-append, append_assoc}
use distrib_kv.Prelude.{
  ◌≡◌, ◌≢◌, refl, sym, ◌∙◌, ap, List, [], ◌∷◌, ◌++◌, Bool, true, false, ◌==◌, String, str_eq,
  str_eq_iff, Bool-cases, inl, inr,
}
use distrib_kv.Config.Paths.{
  split_char, split_path, is_rooted, push_part, push_parts, join_parts, render, clean_path,
  join_path,
}

slash_append : (t : String) → append_text "/" t ≡ String.◌∷◌ "/" t
slash_append t = cons-append "/" "" t ∙ ap (λ (u : String). String.◌∷◌ "/" u) (nil-append t)

-- A part without a slash.
abbrev pub IsPart : String → Type 0
IsPart w = split_path w ≡ w ∷ []

split_char-ne : (c : Char) (ws : List String) → ws ≢ [] → split_char c ws ≢ []
unfolding split_char
split_char-ne c [] h = absurd (h refl)
split_char-ne c (w ∷ ws) h = elim (Bool-cases (code c == 47)) [
  | inl e ↦ rw e (λ k. cc)
  | inr e ↦ rw e (λ k. cc)
]

split_path-ne : (s : String) → split_path s ≢ []
unfolding split_path
split_path-ne String.[] = λ h. cc
split_path-ne (String.◌∷◌ c s) = split_char-ne c (split_path s) (split_path-ne s)

split_char-append :
    (c : Char) (xs ys : List String) → xs ≢ [] → split_char c (xs ++ ys) ≡ split_char c xs ++ ys
unfolding split_char
split_char-append c [] ys h = absurd (h refl)
split_char-append c (x ∷ xs) ys h = elim (Bool-cases (code c == 47)) [
  | inl e ↦ rw e refl
  | inr e ↦ rw e refl
]

split_path-slash : (w : String) → IsPart w → split_path (append_text "/" w) ≡ "" ∷ w ∷ []
unfolding split_path
split_path-slash w h = rw (slash_append w, split_path, h) refl

split_path-append :
    (s w : String)
    → IsPart w
    → split_path (append_text s (append_text "/" w)) ≡ split_path s ++ w ∷ []
unfolding split_path
split_path-append String.[] w h = rw (nil-append (append_text "/" w)) (split_path-slash w h)
split_path-append (String.◌∷◌ c s) w h = rw (cons-append c s (append_text "/" w)) (
    ap (split_char c) (split_path-append s w h)
    ∙ split_char-append c (split_path s) (w ∷ []) (split_path-ne s))

is_rooted-append : (s t : String) → s ≢ "" → is_rooted (append_text s t) ≡ is_rooted s
unfolding is_rooted
is_rooted-append String.[] t h = absurd (h refl)
is_rooted-append (String.◌∷◌ c s) t h = rw (cons-append c s t) refl

push_parts-append :
    (rooted : Bool) (ps ws : List String) (w : String)
    → push_parts rooted ps (ws ++ w ∷ []) ≡ push_part rooted (push_parts rooted ps ws) w
unfolding push_parts
push_parts-append rooted ps [] w = refl
push_parts-append rooted ps (v ∷ ws) w = push_parts-append rooted (push_part rooted ps v) ws w

-- What stands before the last part of a path.
pub parent : Bool → List String → String
parent true [] = "/"
parent false [] = ""
parent true (p ∷ ps) = append_text "/" (append_text (join_parts (p ∷ ps)) "/")
parent false (p ∷ ps) = append_text (join_parts (p ∷ ps)) "/"

render-parent :
    (rooted : Bool) (w : String) (ps : List String)
    → render rooted (w ∷ ps) ≡ append_text (parent rooted ps) w
unfolding render parent join_parts
render-parent true w [] = refl
render-parent false w [] = sym (nil-append w)
render-parent true w (p ∷ ps) =
    ap (append_text "/") (sym (append_assoc (join_parts (p ∷ ps)) "/" w))
    ∙ sym (append_assoc "/" (append_text (join_parts (p ∷ ps)) "/") w)
render-parent false w (p ∷ ps) = sym (append_assoc (join_parts (p ∷ ps)) "/" w)

-- A part that is kept as it is.
pub record IsPlain (w : String) : Type 0 where
  pub part : IsPart w
  pub nonempty : str_eq w "" ≡ false
  pub no_dot : str_eq w "." ≡ false
  pub no_dots : str_eq w ".." ≡ false

-- The directory of a node is the cluster's with the node's own part behind it.
pub join_path-parent :
    (dir w : String)
    → dir ≢ ""
    → IsPlain w
    → join_path dir w
      ≡ append_text (parent (is_rooted dir) (push_parts (is_rooted dir) [] (split_path dir))) w
unfolding join_path clean_path push_part
join_path-parent dir w h p =
    let rooted = is_rooted dir in
    let ps = push_parts rooted [] (split_path dir) in
    elim (Bool-cases (str_eq dir "")) [
      | inl e ↦ absurd (h ((str_eq_iff dir "").0 e))
      | inr e ↦
          rw
            (
              e,
              p.nonempty,
              is_rooted-append dir (append_text "/" w) h,
              split_path-append dir w p.part,
              push_parts-append rooted [] (split_path dir) w,
              p.nonempty,
              p.no_dot,
              p.no_dots,
            )
            (render-parent rooted w ps)
    ]
