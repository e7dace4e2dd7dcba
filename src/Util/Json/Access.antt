-- ===== src/Util/Json/Access.antt =====
-- About the accessors of src/util/json.cpp: objects that `set` has changed.
use bitcoin_miner.Base.{
  true, false, Text, ◌=t=◌, =t=_refl, =t=_eq, Bool-cases, inl, inr, ◌≡◌, refl, sym, ap, ◌∙◌, Option,
  none, some,
}
use bitcoin_miner.Util.Json.{
  Json, Members, null, object, no_members, member, find, put, set, lookup,
}

module _ {D : Type 0} where
  find-hit :
      (key k : Text) (v : Json D) (ms : Members D)
      → (k =t= key) ≡ true
      → find key (member k v ms) ≡ some v
  unfolding find
  find-hit key k v ms h = rw h refl

  find-miss :
      (key k : Text) (v : Json D) (ms : Members D)
      → (k =t= key) ≡ false
      → find key (member k v ms) ≡ find key ms
  unfolding find
  find-miss key k v ms h = rw h refl

  put-hit :
      (key k : Text) (v w : Json D) (ms : Members D)
      → (k =t= key) ≡ true
      → put key v (member k w ms) ≡ member k v ms
  unfolding put
  put-hit key k v w ms h = rw h refl

  put-miss :
      (key k : Text) (v w : Json D) (ms : Members D)
      → (k =t= key) ≡ false
      → put key v (member k w ms) ≡ member k w (put key v ms)
  unfolding put
  put-miss key k v w ms h = rw h refl

  find-put_same : (key : Text) (v : Json D) (ms : Members D) → find key (put key v ms) ≡ some v
  find-put_same key v no_members = unfold put in find-hit key key v no_members (=t=_refl key)
  find-put_same key v (member k w ms) = elim (Bool-cases (k =t= key)) [
    | inl same ↦ ap (find key) (put-hit key k v w ms same) ∙ find-hit key k v ms same
    | inr other ↦
        ap (find key) (put-miss key k v w ms other)
        ∙ find-miss key k w (put key v ms) other
        ∙ find-put_same key v ms
  ]

  find-both :
      (key k : Text) (w : Json D) (ms ns : Members D)
      → find key ms ≡ find key ns
      → find key (member k w ms) ≡ find key (member k w ns)
  unfolding find
  find-both key k w ms ns h = rw (find, h) refl

  find-put_other :
      (key k : Text) (v : Json D) (ms : Members D)
      → (k =t= key) ≡ false
      → find key (put k v ms) ≡ find key ms
  find-put_other key k v no_members other = unfold put in find-miss key k v no_members other
  find-put_other key k v (member l w ms) other = elim (Bool-cases (l =t= k)) [
    | inl same ↦
        let l_other : (l =t= key) ≡ false = ap (λ t. t =t= key) (=t=_eq l k same) ∙ other in
        ap (find key) (put-hit k l v w ms same)
        ∙ find-miss key l v ms l_other
        ∙ sym (find-miss key l w ms l_other)
    | inr new ↦
        ap (find key) (put-miss k l v w ms new)
        ∙ find-both key l w (put k v ms) ms (find-put_other key k v ms other)
  ]

  -- What `operator[]` gives after a `set`.
  abbrev pub AfterSet : Json D → Text → Json D → Text → Type 0
  AfterSet obj key v k =
      ((key =t= k) ≡ true → lookup (set obj key v) k ≡ v)
      × ((key =t= k) ≡ false → lookup (set obj key v) k ≡ lookup obj k)

  result : Option (Json D) → Json D
  result none = null
  result (some w) = w

  lookup-object : (ms : Members D) (key : Text) → lookup (object ms) key ≡ result (find key ms)
  unfolding lookup result
  lookup-object ms key = go (find key ms)
    where
      go : (o : Option (Json D)) → (elim o [ none ↦ null | some v ↦ v ]) ≡ result o
      go none = refl
      go (some v) = refl

  -- `set` keeps the members of an object, and makes an empty object of any other value.
  members_of : Json D → Members D
  members_of (object ms) = ms
  members_of _ = no_members

  lookup-members_of : (v : Json D) (key : Text) → lookup v key ≡ result (find key (members_of v))
  unfolding lookup result members_of find
  lookup-members_of (object ms) key = lookup-object ms key
  lookup-members_of _ key = refl

  set-members_of :
      (obj : Json D) (key : Text) (v : Json D) → set obj key v ≡ object (put key v (members_of obj))
  unfolding set members_of put
  set-members_of (object ms) key v = refl
  set-members_of _ key v = refl

  -- After a key is set in a value, looking up the key gives what was set, and looking up any other
  -- key gives what it gave before, where a value that is no object counts as one without members.
  pub set-AfterSet : (obj : Json D) (key : Text) (v : Json D) (k : Text) → AfterSet obj key v k
  unfolding result
  set-AfterSet obj key v k = (same, other)
    where
      changed : lookup (set obj key v) k ≡ result (find k (put key v (members_of obj)))
      changed = ap (λ o. lookup o k) (set-members_of obj key v) ∙ lookup-object _ k

      same : (key =t= k) ≡ true → lookup (set obj key v) k ≡ v
      same e =
          changed
          ∙ ap result (
              ap (λ t. find t (put key v (members_of obj))) (sym (=t=_eq key k e))
              ∙ find-put_same key v (members_of obj))

      other : (key =t= k) ≡ false → lookup (set obj key v) k ≡ lookup obj k
      other e =
          changed
          ∙ ap result (find-put_other k key v (members_of obj) e)
          ∙ sym (lookup-members_of obj k)
