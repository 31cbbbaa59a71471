-- ===== src/Tcp/Server/Table.antt =====
-- A table of numbers by their keys beside the states of the numbers, and the changes that keep the two
-- together.
use magic_engine.Common.{
  set_at, set_at-cases, set_at-same, ℕ, ◌+◌, ◌≤◌, ◌≡◌, refl, sym, ap, ◌∙◌, ◌≢◌, inl, inr, true,
  false, Option, none, some, List, arith, if◌then◌else◌, Bool-cases, Bytes, bytes_eq, bytes_eq→eq,
  bytes_eq_refl, lookup, assign, delete, lookup-assign, lookup-delete,
}

module _ {P : Type 0} (open_of live_of owner_of : P → Option Bytes) where
  -- The table lists what is live, and nothing that no owner has a key for. What is open has a key of
  -- its own. From `count` on nothing is open or owned.
  pub record Agrees (pc : ℕ → P) (count : ℕ) (m : List (Bytes × ℕ)) : Type 0 where
    pub later : (j : ℕ) → count ≤ j → (open_of (pc j) ≡ none) × (owner_of (pc j) ≡ none)
    pub distinct : (i j : ℕ) (k : Bytes) → open_of (pc i) ≡ some k → open_of (pc j) ≡ some k → i ≡ j
    pub listed : (i : ℕ) (k : Bytes) → live_of (pc i) ≡ some k → lookup k m ≡ some i
    pub owned : (i : ℕ) (k : Bytes) → lookup k m ≡ some i → owner_of (pc i) ≡ some k

  -- What a step of the number `i` does to its state and to the table
  pub data Change (i : ℕ) (p : P) (m : List (Bytes × ℕ)) : P → List (Bytes × ℕ) → Type 0 where
    keep :
        {q : P}
        → ((k : Bytes) → live_of q ≡ some k → live_of p ≡ some k)
        → ((k : Bytes) → owner_of p ≡ some k → owner_of q ≡ some k)
        → Change i p m q m
    add :
        {q : P} (k : Bytes)
        → open_of p ≡ some k
        → owner_of p ≡ none
        → ((j : Bytes) → live_of q ≡ some j → j ≡ k)
        → owner_of q ≡ some k
        → Change i p m q (assign k i m)
    drop_key :
        {q : P} (k : Bytes)
        → open_of p ≡ some k
        → live_of q ≡ none
        → ((j : Bytes) → owner_of p ≡ some j → j ≡ k)
        → Change i p m q (delete k m)

  module _ (live_open : (p : P) (k : Bytes) → live_of p ≡ some k → open_of p ≡ some k) (pc : ℕ → P)
      (count i : ℕ) (m : List (Bytes × ℕ)) (agrees : Agrees pc count m) where
    -- A number that is live under another's key
    other_key :
        (j : ℕ) (k x : Bytes)
        → open_of (pc i) ≡ some k
        → i ≢ j
        → live_of (pc j) ≡ some x
        → bytes_eq k x ≡ false
    other_key j k x o n l = elim (Bool-cases (bytes_eq k x)) [
      | inl same ↦
          let e : k ≡ x = bytes_eq→eq k x same in
          absurd (n (agrees.distinct i j k o (live_open (pc j) k (l ∙ ap some (sym e)))))
      | inr e ↦ e
    ]

    later-Agrees :
        (q : P) (k : Bytes)
        → open_of (pc i) ≡ some k
        → (j : ℕ) → count ≤ j
        → (open_of (set_at pc i q j) ≡ none) × (owner_of (set_at pc i q j) ≡ none)
    later-Agrees q k o j h = elim (set_at-cases pc i q j) [
      | inl (same, e) ↦ let none_there = (agrees.later j h).0 in absurd cc
      | inr (_, e) ↦ let (a, b) = agrees.later j h in (ap open_of e ∙ a, ap owner_of e ∙ b)
    ]

    open_before :
        (q : P)
        → ((x : Bytes) → open_of q ≡ some x → open_of (pc i) ≡ some x)
        → (j : ℕ) (x : Bytes) → open_of (set_at pc i q j) ≡ some x
        → open_of (pc j) ≡ some x
    open_before q o j x h = elim (set_at-cases pc i q j) [
      | inl (same, e) ↦ ap (λ n. open_of (pc n)) (sym same) ∙ o x (sym (ap open_of e) ∙ h)
      | inr (_, e) ↦ sym (ap open_of e) ∙ h
    ]

    distinct-Agrees :
        (q : P)
        → ((x : Bytes) → open_of q ≡ some x → open_of (pc i) ≡ some x)
        → (a b : ℕ) (x : Bytes) → open_of (set_at pc i q a) ≡ some x
        → open_of (set_at pc i q b) ≡ some x
        → a ≡ b
    distinct-Agrees q o a b x g h =
        agrees.distinct a b x (open_before q o a x g) (open_before q o b x h)

    listed_here :
        (q : P) (t : List (Bytes × ℕ))
        → Change i (pc i) m q t
        → (x : Bytes) → live_of q ≡ some x
        → lookup x t ≡ some i
    listed_here q _ (keep l w) x h = agrees.listed i x (l x h)
    listed_here q _ (add k o n l w) x h =
        let e : bytes_eq k x ≡ true = ap (bytes_eq k) (l x h) ∙ bytes_eq_refl k in
        lookup-assign k x i m ∙ rw e refl
    listed_here q _ (drop_key k o l w) x h = absurd cc

    listed_there :
        (q : P) (t : List (Bytes × ℕ))
        → Change i (pc i) m q t
        → (j : ℕ) (x : Bytes) → i ≢ j
        → live_of (pc j) ≡ some x
        → lookup x t ≡ some j
    listed_there q _ (keep l w) j x n h = agrees.listed j x h
    listed_there q _ (add k o d l w) j x n h =
        lookup-assign k x i m ∙ rw (other_key j k x o n h) (agrees.listed j x h)
    listed_there q _ (drop_key k o l w) j x n h =
        lookup-delete k x m ∙ rw (other_key j k x o n h) (agrees.listed j x h)

    listed-Agrees :
        (q : P) (t : List (Bytes × ℕ))
        → Change i (pc i) m q t
        → (j : ℕ) (x : Bytes) → live_of (set_at pc i q j) ≡ some x
        → lookup x t ≡ some j
    listed-Agrees q t c j x h = elim (set_at-cases pc i q j) [
      | inl (same, e) ↦ listed_here q t c x (sym (ap live_of e) ∙ h) ∙ ap some same
      | inr (n, e) ↦ listed_there q t c j x n (sym (ap live_of e) ∙ h)
    ]

    owner_of-set_at :
        (q : P) (j : ℕ) (x : Bytes)
        → owner_of (pc j) ≡ some x
        → (owner_of (pc i) ≡ some x → owner_of q ≡ some x)
        → owner_of (set_at pc i q j) ≡ some x
    owner_of-set_at q j x w f = elim (set_at-cases pc i q j) [
      | inl (same, e) ↦ ap owner_of e ∙ f (ap (λ n. owner_of (pc n)) same ∙ w)
      | inr (_, e) ↦ ap owner_of e ∙ w
    ]

    owned-Agrees :
        (q : P) (t : List (Bytes × ℕ))
        → Change i (pc i) m q t
        → (j : ℕ) (x : Bytes) → lookup x t ≡ some j
        → owner_of (set_at pc i q j) ≡ some x
    owned-Agrees q _ (keep l w) j x h = owner_of-set_at q j x (agrees.owned j x h) (w x)
    owned-Agrees q _ (add k o d l w) j x h =
        let found = sym (lookup-assign k x i m) ∙ h in
        elim (Bool-cases (bytes_eq k x)) [
          | inl same ↦
              let hit : some i ≡ some j =
                ap (λ b. if b then some i else lookup x m) (sym same) ∙ found in
              let here : i ≡ j = cc in
              ap (λ n. owner_of (set_at pc i q n)) (sym here)
              ∙ ap owner_of (set_at-same pc i q)
              ∙ w
              ∙ ap some (bytes_eq→eq k x same)
          | inr miss ↦
              let old : lookup x m ≡ some j =
                ap (λ b. if b then some i else lookup x m) (sym miss) ∙ found in
              owner_of-set_at q j x (agrees.owned j x old) (λ e. absurd cc)
        ]
    owned-Agrees q _ (drop_key k o l w) j x h =
        let found = sym (lookup-delete k x m) ∙ h in
        elim (Bool-cases (bytes_eq k x)) [
          | inl same ↦
              let gone : none ≡ some j =
                ap (λ b. if b then none else lookup x m) (sym same) ∙ found in
              absurd cc
          | inr miss ↦
              let old : lookup x m ≡ some j =
                ap (λ b. if b then none else lookup x m) (sym miss) ∙ found in
              owner_of-set_at q j x (agrees.owned j x old) (λ e.
                let t : bytes_eq k x ≡ true = ap (bytes_eq k) (w x e) ∙ bytes_eq_refl k in
                absurd cc)
        ]

    pub Change-Agrees :
        (q : P) (t : List (Bytes × ℕ)) (k : Bytes)
        → open_of (pc i) ≡ some k
        → ((x : Bytes) → open_of q ≡ some x → open_of (pc i) ≡ some x)
        → Change i (pc i) m q t
        → Agrees (set_at pc i q) count t
    Change-Agrees q t k o os c = record {
      later = later-Agrees q k o;
      distinct = distinct-Agrees q os;
      listed = listed-Agrees q t c;
      owned = owned-Agrees q t c;
    }

  -- A new number, for a key that nothing open has
  module _ (pc : ℕ → P) (count : ℕ) (m : List (Bytes × ℕ)) (agrees : Agrees pc count m) (q : P)
      (k : Bytes) (opens : open_of q ≡ some k) (dead : live_of q ≡ none)
      (fresh : (j : ℕ) → open_of (pc j) ≢ some k) where
    new-distinct :
        (a b : ℕ) (x : Bytes)
        → open_of (set_at pc count q a) ≡ some x
        → open_of (set_at pc count q b) ≡ some x
        → a ≡ b
    new-distinct a b x g h = elim (set_at-cases pc count q a) [
      | inl (here, e) ↦ elim (set_at-cases pc count q b) [
        | inl (there, f) ↦ sym here ∙ there
        | inr (n, f) ↦ absurd (fresh b (sym (ap open_of f) ∙ h ∙ sym g ∙ ap open_of e ∙ opens))
      ]
      | inr (n, e) ↦ elim (set_at-cases pc count q b) [
        | inl (there, f) ↦ absurd (fresh a (sym (ap open_of e) ∙ g ∙ sym h ∙ ap open_of f ∙ opens))
        | inr (n, f) ↦ agrees.distinct a b x (sym (ap open_of e) ∙ g) (sym (ap open_of f) ∙ h)
      ]
    ]

    new-later :
        (j : ℕ)
        → count + 1 ≤ j
        → (open_of (set_at pc count q j) ≡ none) × (owner_of (set_at pc count q j) ≡ none)
    new-later j h = elim (set_at-cases pc count q j) [
      | inl (same, e) ↦ absurd (omega arith)
      | inr (_, e) ↦
          let (a, b) = agrees.later j (omega arith) in (ap open_of e ∙ a, ap owner_of e ∙ b)
    ]

    pub new-Agrees : Agrees (set_at pc count q) (count + 1) m
    new-Agrees = record {
      later = new-later;
      distinct = new-distinct;
      listed = λ j x h. elim (set_at-cases pc count q j) [
        | inl (_, e) ↦ let l = sym (ap live_of e) ∙ h in absurd cc
        | inr (_, e) ↦ agrees.listed j x (sym (ap live_of e) ∙ h)
      ];
      owned = λ j x h. elim (set_at-cases pc count q j) [
        | inl (same, e) ↦
            let unowned = (agrees.later count (omega arith)).1 in
            let w = ap (λ n. owner_of (pc n)) same ∙ agrees.owned j x h in absurd cc
        | inr (_, e) ↦ ap owner_of e ∙ agrees.owned j x h
      ];
    }
