-- ===== src/Kv/Dedup/Once.antt =====
-- How long a cached result stays (kv/apply.go).
use distrib_kv.Prelude.{
  ℕ, zero, suc, ◌+◌, ◌≤◌, ◌≡◌, refl, inl, inr, [], ◌∷◌, Option, none, some, false, ◌==◌, ◌&&◌,
  if◌then◌else◌, Option-cases, Assoc, lookup, insert, delete, length, nat_key, arith, lookup_nil,
  lookup_cons, lookup-insert, lookup-delete, length-delete-le, length-insert-le, ==_iff,
}
use distrib_kv.Kv.Types.{Result, DuplicateEntry, Dups, max_duplicates}
use distrib_kv.Kv.Dedup.{
  is_expired, drop_expired, evict, cleanup_duplicates, save_duplicate, get_duplicate,
}

abbrev pub cached : ℕ → ℕ → Dups → Option DuplicateEntry
cached c q d = elim (lookup c d) [ none ↦ none | some cm ↦ lookup q cm ]

abbrev pub entries : ℕ → Dups → ℕ
entries c d = elim (lookup c d) [ none ↦ 0 | some cm ↦ length cm ]

-- The entry is there, and its client may save `room` more results before any is evicted.
pub record Kept (room c q : ℕ) (e : DuplicateEntry) (d : Dups) : Type 0 where
  pub entry : cached c q d ≡ some e
  pub fits : entries c d + room ≤ max_duplicates

pub cached-save_duplicate :
    (now c q c' q' : ℕ) (res : Result) (d : Dups)
    → cached c q (save_duplicate now c' q' res d) ≡ (
        if c' == c && q' == q
        then some (record { result = res; timestamp = now })
        else cached c q d)
unfolding save_duplicate
cached-save_duplicate now c q c' q' res d = elim (Option-cases (lookup c' d)) [
  | inl h ↦
      (ground (
        arith,
        h,
        lookup_cons {V = DuplicateEntry} q q' (record { result = res; timestamp = now }) [],
        lookup_nil {V = DuplicateEntry} q,
        lookup-insert c' c ((q', record { result = res; timestamp = now }) ∷ []) d,
        ==_iff c' c,
      ))
  | inr (cm, h) ↦
      (ground (
        arith,
        ==_iff c' c,
        lookup-insert c' c (insert q' (record { result = res; timestamp = now }) cm) d,
        lookup-insert q' q (record { result = res; timestamp = now }) cm,
      ))
]

pub entries-save_duplicate :
    (now c c' q' : ℕ) (res : Result) (d : Dups)
    → entries c (save_duplicate now c' q' res d) ≤ entries c d + 1
unfolding save_duplicate
entries-save_duplicate now c c' q' res d = elim (Option-cases (lookup c' d)) [
  | inl h ↦
      (ground (
        arith,
        lookup-insert c' c ((q', record { result = res; timestamp = now }) ∷ []) d,
        ==_iff c' c,
      ))
  | inr (cm, h) ↦
      (ground (
        arith,
        ==_iff c' c,
        lookup-insert c' c (insert q' (record { result = res; timestamp = now }) cm) d,
        length-insert-le q' (record { result = res; timestamp = now }) cm,
      ))
]

lookup-drop_expired :
    (now q : ℕ) (m : Assoc ℕ DuplicateEntry) {e : DuplicateEntry}
    → lookup q m ≡ some e
    → is_expired now e ≡ false
    → lookup q (drop_expired now m) ≡ some e
unfolding drop_expired
lookup-drop_expired now q [] h f = ground (arith, lookup_nil {V = DuplicateEntry} q)
lookup-drop_expired now q ((j, x) ∷ m) {e} h f = ground (
  arith,
  lookup_cons q j x m,
  lookup_cons q j x (drop_expired now m),
  lookup-drop_expired now q m {e = e},
)

length-drop_expired :
    (now : ℕ) (m : Assoc ℕ DuplicateEntry) → length (drop_expired now m) ≤ length m
unfolding drop_expired
length-drop_expired now [] = omega arith
length-drop_expired now (x ∷ m) = ground (arith, length-drop_expired now m)

evict_small : (fuel : ℕ) (m : Assoc ℕ DuplicateEntry) → length m ≤ max_duplicates → evict fuel m ≡ m
unfolding evict
evict_small zero m h = refl
evict_small (suc fuel) m h = ground arith

pub Kept-cleanup_duplicates :
    (now c q client room : ℕ) (d : Dups) {e : DuplicateEntry}
    → Kept room c q e d
    → is_expired now e ≡ false
    → Kept room c q e (cleanup_duplicates now client d)
unfolding cleanup_duplicates
Kept-cleanup_duplicates now c q client room d {e} k f = elim (Option-cases (lookup client d)) [
  | inl h ↦ ground (arith, k.entry, k.fits)
  | inr (cm, h) ↦
      let live = drop_expired now cm in
      (ground (
        arith,
        ==_iff client c,
        k.entry,
        k.fits,
        lookup-insert client c (evict (length live) live) d,
        lookup-drop_expired now q cm {e = e},
        length-drop_expired now cm,
        evict_small (length live) live,
      ))
]

pub Kept-get_duplicate :
    (now c q c' q' room : ℕ) (d : Dups) {e : DuplicateEntry}
    → Kept room c q e d
    → is_expired now e ≡ false
    → Kept room c q e (get_duplicate now c' q' d).1
unfolding get_duplicate
Kept-get_duplicate now c q c' q' room d k f = elim (Option-cases (lookup c' d)) [
  | inl h ↦ ground (arith, k.entry, k.fits)
  | inr (cm, h) ↦ elim (Option-cases (lookup q' cm)) [
    | inl g ↦ ground (arith, k.entry, k.fits)
    | inr (x, g) ↦
        (ground (
          arith,
          ==_iff c' c,
          ==_iff q' q,
          k.entry,
          k.fits,
          lookup-insert c' c (delete q' cm) d,
          lookup-delete q' q cm,
          length-delete-le q' cm,
        ))
  ]
]

pub entries-get_duplicate :
    (now c c' q' : ℕ) (d : Dups) → entries c (get_duplicate now c' q' d).1 ≤ entries c d
unfolding get_duplicate
entries-get_duplicate now c c' q' d = elim (Option-cases (lookup c' d)) [
  | inl h ↦ ground arith
  | inr (cm, h) ↦
      ground (arith, ==_iff c' c, lookup-insert c' c (delete q' cm) d, length-delete-le q' cm)
]
