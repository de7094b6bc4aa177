-- ===== src/Containers/Laws.antt =====
-- What the documented behaviour of the tables gives at each operation.
use cinquain_meta.Common.{
  ◌≡◌, refl, sym, ◌∙◌, ◌≢◌, inl, inr, true, false, [], ◌∷◌, ◌++◌, arith, ◌==◌, if◌then◌else◌,
  str_eq_refl, str_eq→eq, Bool-cases,
}
use cinquain_meta.Containers.{
  Ptr, null, Key, by_ptr, by_str, key_eq, Table, assoc, remove, without, IsTable, Library,
}

pub key_eq_refl : (k : Key) → key_eq k k ≡ true
key_eq_refl (by_ptr p) = ground arith
key_eq_refl (by_str s) = str_eq_refl s

pub key_ne : (p q : Ptr) → p ≢ q → key_eq (by_ptr p) (by_ptr q) ≡ false
key_ne p q ne = ground arith

pub key_eq→eq : (k j : Key) → key_eq k j ≡ true → k ≡ j
key_eq→eq (by_ptr p) (by_ptr q) h = ground arith
key_eq→eq (by_ptr p) (by_str s) h = ground arith
key_eq→eq (by_str s) (by_ptr p) h = ground arith
key_eq→eq (by_str s) (by_str t) h = cc (str_eq→eq s t h)

assoc-append :
    (k j : Key) (p : Ptr) (t : Table)
    → assoc k t ≡ null
    → IsTable t
    → assoc j (t ++ (k, p) ∷ []) ≡ (if key_eq k j then p else assoc j t)
unfolding assoc
assoc-append k j p [] absent is = refl
assoc-append k j p ((i, q) ∷ t) absent is = elim (Bool-cases (key_eq i k)) [
  | inl same ↦ absurd (is.0 (rw same at absent))
  | inr other ↦
      let ih = assoc-append k j p t (rw other at absent) is.2 in
      elim (Bool-cases (key_eq k j)) [
        | inl e ↦ let f : key_eq i j ≡ false = rw (← key_eq→eq k j e) other in rw (e, f, ih, e)
        | inr e ↦ rw (ih, e)
      ]
]

assoc-append_absent :
    (j k : Key) (p : Ptr) (t : Table)
    → assoc j t ≡ null
    → key_eq k j ≡ false
    → assoc j (t ++ (k, p) ∷ []) ≡ null
unfolding assoc
assoc-append_absent j k p [] h e = rw e
assoc-append_absent j k p ((i, q) ∷ t) h e = ground (arith, assoc-append_absent j k p t)

append-IsTable :
    (k : Key) (p : Ptr) (t : Table)
    → IsTable t
    → assoc k t ≡ null
    → p ≢ null
    → IsTable (t ++ (k, p) ∷ [])
unfolding assoc
append-IsTable k p [] is absent ne = (ne, refl, tt)
append-IsTable k p ((i, q) ∷ t) is absent ne = elim (Bool-cases (key_eq i k)) [
  | inl same ↦ absurd (is.0 (rw same at absent))
  | inr other ↦
      let other' : key_eq k i ≡ false = elim (Bool-cases (key_eq k i)) [
        | inl e ↦ cc (key_eq→eq k i e, key_eq_refl i, other)
        | inr e ↦ e
      ] in
      (
        is.0,
        assoc-append_absent i k p t is.1 other',
        append-IsTable k p t is.2 (rw other at absent) ne,
      )
]

-- The search after a deletion: what was found still is, unless it is the deleted element.
assoc-without :
    (p : Ptr) (k : Key) (t : Table)
    → IsTable t
    → assoc k (without p t) ≡ (if assoc k t == p then null else assoc k t)
unfolding assoc without
assoc-without p k [] is = ground arith
assoc-without p k ((i, q) ∷ t) is = elim (Bool-cases (key_eq i k)) [
  | inl same ↦
      let at_k : assoc k t ≡ null = rw (← key_eq→eq i k same) is.1 in
      elim (Bool-cases (q == p)) [
        | inl gone ↦ rw (gone, same, gone, assoc-without p k t is.2, at_k) (ground arith)
        | inr kept ↦ rw (kept, same, kept)
      ]
  | inr other ↦ elim (Bool-cases (q == p)) [
    | inl gone ↦ rw (gone, other, assoc-without p k t is.2)
    | inr kept ↦ rw (kept, other, assoc-without p k t is.2)
  ]
]

without-IsTable : (p : Ptr) (t : Table) → IsTable t → IsTable (without p t)
unfolding without assoc
without-IsTable p [] is = tt
without-IsTable p ((i, q) ∷ t) is = elim (Bool-cases (q == p)) [
  | inl gone ↦ rw gone (without-IsTable p t is.2)
  | inr kept ↦
      rw kept (is.0, ground (arith, assoc-without p i t is.2, is.1), without-IsTable p t is.2)
]

module _ ⦃u : Library⦄ where
  -- After HASH_ADD of a new key, that key finds the new element and every other key what it did.
  pub find-add :
      (k j : Key) (p : Ptr) (t : Table)
      → IsTable t
      → u.find k t ≡ null
      → p ≢ null
      → u.find j (u.add k p t) ≡ (if key_eq k j then p else u.find j t)
  find-add k j p t is absent ne =
      let absent' : assoc k t ≡ null = sym (u.find_lem k t is) ∙ absent in
      rw (u.add_lem k p t, u.find_lem j _ (append-IsTable k p t is absent' ne), u.find_lem j t is)
        (assoc-append k j p t absent' is)

  pub IsTable-add :
      (k : Key) (p : Ptr) (t : Table)
      → IsTable t
      → u.find k t ≡ null
      → p ≢ null
      → IsTable (u.add k p t)
  IsTable-add k p t is absent ne =
      rw (u.add_lem k p t) (append-IsTable k p t is (sym (u.find_lem k t is) ∙ absent) ne)

  -- After HASH_DELETE of an element no key finds it, and every other element is found as before.
  pub find-delete :
      (p : Ptr) (k : Key) (t : Table)
      → IsTable t
      → u.find k (u.delete p t) ≡ (if u.find k t == p then null else u.find k t)
  find-delete p k t is =
      rw (u.delete_lem p t is, u.find_lem k _ (without-IsTable p t is), u.find_lem k t is)
        (assoc-without p k t is)

  pub IsTable-delete : (p : Ptr) (t : Table) → IsTable t → IsTable (u.delete p t)
  IsTable-delete p t is = rw (u.delete_lem p t is) (without-IsTable p t is)

  pub find-nil : (k : Key) → u.find k [] ≡ null
  unfolding assoc
  find-nil k = u.find_lem k [] tt

  pub add-ne-nil : (k : Key) (p : Ptr) (t : Table) → u.add k p t ≢ []
  add-ne-nil k p [] = rw (u.add_lem k p []) (λ e. cc)
  add-ne-nil k p (x ∷ t) = rw (u.add_lem k p (x ∷ t)) (λ e. cc)

-- The specification itself is such a library, so its laws can be met.
instance abbrev pub plain_lists : Library
plain_lists = record {
  find = assoc;
  add = λ k p t. t ++ (k, p) ∷ [];
  delete = without;
  list_add = λ p l. p ∷ l;
  list_add_tail = λ p l. l ++ p ∷ [];
  list_del = remove;
  find_lem = λ k t is. refl;
  add_lem = λ k p t. refl;
  delete_lem = λ p t is. refl;
  list_add_lem = λ p l. refl;
  list_add_tail_lem = λ p l. refl;
  list_del_lem = λ p l. refl;
}
