-- ===== src/Operation/Recovery/Settled.antt =====
-- internal/operation/store.go: what a restart leaves of the operations it interrupted.
use ya_router.Common.{
  ℕ, Text, Bool, true, false, Bool-cases, Option, none, some, List, [], ◌∷◌, ◌≡◌, refl, arith, Dict,
  lookup, put, lookup-put, text_key, ◌=?◌, =?_iff, contains, sort, text_less, any-sort, inl, inr,
}
use ya_router.Provider.{Time}
use ya_router.Operation.Types.{State, terminal, Record}
use ya_router.Operation.Store.{next_of, Entry, Store, get, contents_of}
use ya_router.Operation.Recovery.{
  recover_entry, recover_all, recover_locked, recovered, recovered_state, is_overdue, ids_of,
}

-- Every operation of `s` that has not ended is among `ids`.
abbrev IsCovered : List Text → Store → Type 0
IsCovered ids s =
    (j : Text) (e : Entry)
    → lookup j s.operations ≡ some e
    → terminal e.contents.state ≡ false
    → contains j ids ≡ true

recovered_state-terminal : (overdue : Bool) → terminal (recovered_state overdue) ≡ true
unfolding terminal
recovered_state-terminal true = refl
recovered_state-terminal false = refl

abbrev put_over : Time → Entry → ℕ → Entry
put_over now f n = record f { contents = recovered now (next_of n) f.contents }

settled :
    (id : Text) (f : Entry) (m : Dict Text Entry) (j : Text) (e : Entry)
    → terminal f.contents.state ≡ true
    → lookup j (put id f m) ≡ some e
    → terminal e.contents.state ≡ false
    → ((id =? j) ≡ false) × (lookup j m ≡ some e)
settled id f m j e t k h = elim (Bool-cases (id =? j)) [
  | inl same ↦ absurd (ground (arith, lookup-put id j f m))
  | inr other ↦ (other, ground (arith, lookup-put id j f m))
]

-- The entry that `recover_entry` leaves under another ID, and under its own.
recover_entry-lookup :
    (now : Time) (id : Text) (o : Option Entry) (s : Store) (j : Text) (e : Entry)
    → lookup id s.operations ≡ o
    → lookup j (recover_entry now id o s).operations ≡ some e
    → terminal e.contents.state ≡ false
    → ((id =? j) ≡ false) × (lookup j s.operations ≡ some e)
unfolding recover_entry
recover_entry-lookup now id none s j e l k h = elim (Bool-cases (id =? j)) [
  | inl same ↦ absurd (ground (arith, =?_iff id j))
  | inr other ↦ (other, k)
]
recover_entry-lookup now id (some f) s j e l k h = elim (Bool-cases (terminal f.contents.state)) [
  | inl over ↦ elim (Bool-cases (id =? j)) [
    | inl same ↦ absurd (ground (arith, =?_iff id j))
    | inr other ↦ (other, simp over at k)
  ]
  | inr live ↦
      settled id (put_over now f s.next_sequence) s.operations j e
        (recovered_state-terminal (is_overdue now f.contents)) (simp live at k) h
]

recover_all-IsCovered :
    (now : Time) (ids : List Text) (s : Store)
    → IsCovered ids s
    → IsCovered [] (recover_all now ids s)
unfolding recover_all
recover_all-IsCovered now [] s c = c
recover_all-IsCovered now (id ∷ ids) s c =
    recover_all-IsCovered now ids (recover_entry now id (lookup id s.operations) s) (λ j e l h.
      let before = recover_entry-lookup now id (lookup id s.operations) s j e refl l h in
      ground (arith, before.0, c j e before.1 h))

ids_of-contains :
    (j : Text) (e : Entry) (m : Dict Text Entry)
    → lookup j m ≡ some e
    → contains j (ids_of m) ≡ true
unfolding lookup
ids_of-contains j e [] l = absurd (ground arith)
ids_of-contains j e ((k, v) ∷ m) l = ground (arith, =?_iff k j, ids_of-contains j e m)

ids-IsCovered : (now : Time) (s : Store) → IsCovered [] (recover_locked now s).0
unfolding recover_locked
ids-IsCovered now s = recover_all-IsCovered now (sort text_less (ids_of s.operations)) s (λ j e l h.
    ground (
      arith,
      any-sort text_less (λ x. x =? j) (ids_of s.operations),
      ids_of-contains j e s.operations l,
    ))

not_live : (state : State) → (terminal state ≡ false → false ≡ true) → terminal state ≡ true
not_live state h = elim (Bool-cases (terminal state)) [
  | inl over ↦ over
  | inr live ↦ absurd (ground (arith, h live))
]

contents_of-terminal :
    (o : Option Entry) (r : Record)
    → ((e : Entry) → o ≡ some e → terminal e.contents.state ≡ true)
    → contents_of o ≡ some r
    → terminal r.state ≡ true
contents_of-terminal none r h g = absurd (ground arith)
contents_of-terminal (some e) r h g = ground (arith, h e refl)

-- After `recover_locked`, every operation of the store has a terminal state.
pub recover_locked-terminal :
    (now : Time) (s : Store) (id : Text) (r : Record)
    → get (recover_locked now s).0 id ≡ some r
    → terminal r.state ≡ true
unfolding recover_locked get
recover_locked-terminal now s id r g =
    contents_of-terminal (lookup id (recover_locked now s).0.operations) r
      (λ e found. not_live e.contents.state (ids-IsCovered now s id e found)) g
