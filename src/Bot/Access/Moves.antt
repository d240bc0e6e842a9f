-- ===== src/Bot/Access/Moves.antt =====
-- The users and the VPN server's table stay in step under each kind of change.
use aegs_global.Prelude.{
  ℕ, ◌⊎◌, ◌≡◌, ◌≢◌, refl, sym, ap, ◌∙◌, Bool, true, false, Option, none, some, List, [], ◌∷◌, arith,
  bytes_eq, bytes_eq→eq, exists, delete_where, exists-delete_where, if◌then◌else◌, Bool-cases, inl,
  inr, ◌==◌, ==→eq, ==→ne, eq_false,
}
use aegs_global.Bot.Access.{owner, AllFit, InStep}
use aegs_global.Bot.State.{Text, ServerUser}
use aegs_global.Bot.Sync.{has_key, upsert_user}
use aegs_global.Bot.Subscriptions.Laws.{has_key-upsert_user}
use aegs_global.Bot.Access.Rows.{
  AllFit-upsert, exists-upsert_other, AllFit-delete, exists-delete_other, NotUnder-mine,
  NotUnder-stray, some-text, some-number,
}

-- A test of a number between two cases.
by_test :
    (id j : ℕ) (a b : Bool) (x : Bool)
    → (j ≡ id → x ≡ a)
    → (j ≢ id → x ≡ b)
    → x ≡ (if j == id then a else b)
by_test id j a b x yes_case no_case = elim (Bool-cases (j == id)) [
  | inl y ↦ rw (y) (yes_case (==→eq j id y))
  | inr n ↦ rw (n) (no_case (==→ne j id n))
]

-- The keys with one more user's.
abbrev with_key : ℕ → Text → (ℕ → Option Text) → ℕ → Option Text
with_key id k keys j = if j == id then some k else keys j

some-none : (a : Text) → some a ≡ none → ⊥
some-none a e = cc (e)

not_seen :
    (k : Text) (r : ServerUser) (rs : List ServerUser)
    → exists (has_key k) (r ∷ rs) ≡ false
    → (bytes_eq r.aegis_key_id k ≡ false) × (exists (has_key k) rs ≡ false)
unfolding exists
not_seen k r rs e = ground (arith, e)

module _ (keys : ℕ → Option Text) (id : ℕ) (k : Text) (absent : keys id ≡ none) where
  with_new :
      (j : ℕ) (k' : Text)
      → with_key id k keys j ≡ some k'
      → ((j ≡ id) × (k' ≡ k)) ⊎ (keys j ≡ some k')
  with_new j k' e = elim (Bool-cases (j == id)) [
    | inl y ↦
        let found : some k ≡ some k' = ap (λ b. if b then some k else keys j) (sym y) ∙ e in
        inl (==→eq j id y, some-text k' k (sym found))
    | inr n ↦ inr (ap (λ b. if b then some k else keys j) (sym n) ∙ e)
  ]

  new_at : (j : ℕ) → j ≢ id → with_key id k keys j ≡ keys j
  new_at j ne = rw (eq_false j id ne) refl

  still_fit :
      (rs : List ServerUser)
      → AllFit keys rs
      → exists (has_key k) rs ≡ false
      → AllFit (with_key id k keys) rs
  still_fit [] all none_there = tt
  still_fit (r ∷ rs) (f, fs) none_there = (
    record {
      mine = λ j e.
          new_at j (λ same. some-none r.aegis_key_id (sym (f.mine j e) ∙ ap keys same ∙ absent))
          ∙ f.mine j e;
      stray = λ e j k' q. elim (with_new j k' q) [
        | inl (ej, kj) ↦ ap (bytes_eq r.aegis_key_id) kj ∙ (not_seen k r rs none_there).0
        | inr old ↦ f.stray e j k' old
      ];
    },
    still_fit rs fs (not_seen k r rs none_there).1,
  )

module _ (keys : ℕ → Option Text) (active : ℕ → Bool) (rows : List ServerUser)
    (h : InStep keys active rows) where
  -- Two users' keys.
  different :
      (i j : ℕ) (k k' : Text) → keys i ≡ some k → keys j ≡ some k' → i ≢ j → bytes_eq k k' ≡ false
  different i j k k' a b ne = elim (Bool-cases (bytes_eq k k')) [
    | inr n ↦ n
    | inl y ↦ absurd (ne (h.apart i j k a (b ∙ ap (λ t. some t) (sym (bytes_eq→eq k k' y)))))
  ]

  -- The user's row is written and the user switched on.
  pub granted :
      (id : ℕ) (name k token : Text)
      → owner name ≡ some id
      → keys id ≡ some k
      → InStep keys (λ j. if j == id then true else active j) (upsert_user name k token rows)
  granted id name k token own key = record {
    apart = h.apart;
    rows_fit =
        AllFit-upsert keys name k token rows
          (λ t. record {
            mine = λ j e. ap keys (some-number j id (sym e ∙ own)) ∙ key;
            stray = λ e. cc (e, own);
          })
          h.rows_fit;
    accepted = λ j k' e.
        by_test id j true (active j) (exists (has_key k') (upsert_user name k token rows))
          (λ same.
            let kk = some-text k' k (sym e ∙ ap keys same ∙ key) in
            ap (λ t. exists (has_key t) (upsert_user name k token rows)) kk
            ∙ has_key-upsert_user name k token rows)
          (λ other.
            let ne = different id j k k' key e (λ q. other (sym q)) in
            exists-upsert_other name k token k' rows ne
              (NotUnder-mine keys name k k' id rows own key ne h.rows_fit)
            ∙ h.accepted j k' e);
  }

  -- The rows with the user's key are deleted and the user switched off.
  pub revoked :
      (id : ℕ) (k : Text)
      → keys id ≡ some k
      → InStep keys (λ j. if j == id then false else active j) (delete_where (has_key k) rows)
  revoked id k key = record {
    apart = h.apart;
    rows_fit = AllFit-delete keys (has_key k) rows h.rows_fit;
    accepted = λ j k' e.
        by_test id j false (active j) (exists (has_key k') (delete_where (has_key k) rows))
          (λ same.
            let kk = some-text k' k (sym e ∙ ap keys same ∙ key) in
            ap (λ t. exists (has_key t) (delete_where (has_key k) rows)) kk
            ∙ exists-delete_where (has_key k) rows)
          (λ other.
            exists-delete_other k' k rows
              (λ q. other (h.apart j id k' e (key ∙ ap (λ t. some t) (sym q))))
            ∙ h.accepted j k' e);
  }

  -- A row with a key that no user has is written under another name.
  pub stray_added :
      (name k token : Text)
      → owner name ≡ none
      → ((j : ℕ) (k' : Text) → keys j ≡ some k' → bytes_eq k k' ≡ false)
      → InStep keys active (upsert_user name k token rows)
  stray_added name k token own fresh = record {
    apart = h.apart;
    rows_fit =
        AllFit-upsert keys name k token rows
          (λ t. record { mine = λ j e. cc (e, own); stray = λ e j k' q. fresh j k' q }) h.rows_fit;
    accepted = λ j k' e.
        exists-upsert_other name k token k' rows (fresh j k' e)
          (NotUnder-stray keys name k' j rows own e h.rows_fit)
        ∙ h.accepted j k' e;
  }

  -- A user comes with a key that no user has and no row carries.
  pub joined :
      (id : ℕ) (k : Text)
      → keys id ≡ none
      → ((j : ℕ) → keys j ≢ some k)
      → exists (has_key k) rows ≡ false
      → InStep
          (λ j. if j == id then some k else keys j)
          (λ j. if j == id then false else active j)
          rows
  joined id k absent fresh unseen = record {
    apart = λ i j k' a b. elim (with_new keys id k absent i k' a) [
      | inl (ei, ki) ↦ elim (with_new keys id k absent j k' b) [
        | inl (ej, kj) ↦ ei ∙ sym ej
        | inr old ↦ absurd (fresh j (old ∙ ap (λ t. some t) ki))
      ]
      | inr old_i ↦ elim (with_new keys id k absent j k' b) [
        | inl (ej, kj) ↦ absurd (fresh i (old_i ∙ ap (λ t. some t) kj))
        | inr old_j ↦ h.apart i j k' old_i old_j
      ]
    ];
    rows_fit = still_fit keys id k absent rows h.rows_fit unseen;
    accepted = λ j k' e. elim (with_new keys id k absent j k' e) [
      | inl (ej, kj) ↦
          by_test id j false (active j) (exists (has_key k') rows)
            (λ same. ap (λ t. exists (has_key t) rows) kj ∙ unseen) (λ other. absurd (other ej))
      | inr old ↦
          by_test id j false (active j) (exists (has_key k') rows)
            (λ same. absurd (some-none k' (sym old ∙ ap keys same ∙ absent)))
            (λ other. h.accepted j k' old)
    ];
  }
