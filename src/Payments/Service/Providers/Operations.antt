-- ===== src/Payments/Service/Providers/Operations.antt =====
-- What configuring and deleting a provider does to the table of providers.
use vinc_api.Base.{
  sym, ap, is_some, ◌||◌, Result-cases, Bool-cases, List, ℕ, ◌≡◌, ◌≢◌, refl, ◌⊎◌, String, string_eq,
  nat_eq, ==_refl, ==_sound, true, false, [], ◌∷◌, ◌++◌, Result, ok, arith, length, where_rows, inl,
  inr, few_rows, where_rows_passes, where_rows-snoc_self, where_rows-snoc_other,
  length-where_rows-snoc,
}
use vinc_api.Payments.Model.{TenantPaymentProvider, Db, EnumFields, members, values, Crashes}
use vinc_api.Payments.Encryption.{Codec, encrypt}
use vinc_api.Payments.Service.Providers.{
  ConfigureProviderRequest, is_of, save_provider, configure_members, delete_provider,
  update_members, update_provider, updated, UpdateProviderRequest, configured,
}
use vinc_api.Payments.Service.Providers.Keys.{
  has_id, IsKeyed, save_provider-IsKeyed, save_provider_self, save_provider_other,
}

is_of_sound :
    (t : ℕ) (n : String) (p : TenantPaymentProvider)
    → is_of t n p ≡ true
    → (p.tenant_id ≡ t) × (p.provider ≡ n)
unfolding is_of
is_of_sound t n p h = ground arith

-- What a configuration of a tenant's provider has done: it returned the row, which is enabled, holds
-- the encrypted credentials and is the one row of the tenant and the name. The keys are unique, and
-- the rows of every other tenant or name are as before.
pub record Configured (c : Codec) (tenant_id : ℕ) (r : ConfigureProviderRequest) (db : Db)
    (after : Result String TenantPaymentProvider × Db) : Type 0 where
  pub row : TenantPaymentProvider
  pub returns : after.0 ≡ ok row
  pub enabled : row.is_enabled ≡ true
  pub holds : row.credentials ≡ encrypt c r.credentials
  pub keyed : IsKeyed after.1.providers
  pub finds : where_rows (is_of tenant_id r.provider) after.1.providers ≡ row ∷ []
  pub others :
      (t : ℕ) (n : String)
      → (t ≢ tenant_id) ⊎ (n ≢ r.provider)
      → where_rows (is_of t n) after.1.providers ≡ where_rows (is_of t n) db.providers

is_of_other :
    (t t' : ℕ) (n n' : String) (p : TenantPaymentProvider)
    → is_of t' n' p ≡ true
    → (t ≢ t') ⊎ (n ≢ n')
    → is_of t n p ≡ false
unfolding is_of
is_of_other t t' n n' p h d = ground arith

module _ (c : Codec) (new_id now tenant_id : ℕ) (r : ConfigureProviderRequest) (db : Db)
    (keyed : IsKeyed db.providers)
    (fresh : length (where_rows (has_id new_id) db.providers) ≡ 0) where
  abbrev after : Result String TenantPaymentProvider × Db
  after = configure_members c new_id now tenant_id r db

  -- The first configuration adds a row.
  configure_new :
      where_rows (is_of tenant_id r.provider) db.providers ≡ [] → Configured c tenant_id r db after
  configure_new none_yet = rw same (record {
    row = p;
    returns = refl;
    enabled = refl;
    holds = refl;
    keyed = record {
      one_id = λ i.
          length-where_rows-snoc (has_id i) db.providers p (λ e. rw (← ==_sound new_id i e) fresh)
            (keyed.one_id i);
      one_name = λ t n.
          length-where_rows-snoc (is_of t n) db.providers p
            (λ e. let (et, en) = is_of_sound t n p e in rw (← et, ← en, none_yet) refl)
            (keyed.one_name t n);
    };
    finds =
        where_rows-snoc_self (is_of tenant_id r.provider) db.providers p named (rw none_yet refl);
    others = λ t n d.
        where_rows-snoc_other (is_of t n) db.providers p
          (is_of_other t tenant_id n r.provider p named d);
  })
    where
      p : TenantPaymentProvider
      p = configured c new_id now now tenant_id r

      same : after ≡ (ok p, record db { providers = db.providers ++ (p ∷ []) })
      same = unfold configure_members in rw (configure_members, none_yet) refl

      named : is_of tenant_id r.provider p ≡ true
      named = unfold is_of in rw (==_refl tenant_id, ==_refl r.provider) refl

  -- A later one writes the row anew.
  configure_old :
      (old : TenantPaymentProvider)
      → where_rows (is_of tenant_id r.provider) db.providers ≡ old ∷ []
      → Configured c tenant_id r db after
  configure_old old found = rw same (record {
    row = p;
    returns = refl;
    enabled = refl;
    holds = refl;
    keyed =
        save_provider-IsKeyed db.providers keyed (is_of tenant_id r.provider) old p found refl refl
          refl;
    finds =
        save_provider_self db.providers keyed (is_of tenant_id r.provider) old p found refl refl
          refl tenant_id r.provider names.0 names.1;
    others = λ t n d.
        save_provider_other db.providers keyed (is_of tenant_id r.provider) old p found refl refl
          refl t n (is_of_other t tenant_id n r.provider old named d);
  })
    where
      p : TenantPaymentProvider
      p = record old {
        credentials = encrypt c r.credentials;
        mode = r.mode;
        config = r.config;
        fee_bearer = r.fee_bearer;
        fees = r.fees;
        is_enabled = true;
        updated_at = now;
      }

      same : after ≡ (ok p, record db { providers = save_provider p db.providers })
      same = unfold configure_members in rw (configure_members, found) refl

      named : is_of tenant_id r.provider old ≡ true
      named = where_rows_passes (is_of tenant_id r.provider) db.providers old [] found

      names : (old.tenant_id ≡ tenant_id) × (old.provider ≡ r.provider)
      names = is_of_sound tenant_id r.provider old named

  pub configure_members-Configured :
      Configured c tenant_id r db (configure_members c new_id now tenant_id r db)
  configure_members-Configured =
      elim (few_rows (where_rows (is_of tenant_id r.provider) db.providers)
        (keyed.one_name tenant_id r.provider)) [
          | inl none_yet ↦ configure_new none_yet
          | inr (old, found) ↦ configure_old old found
        ]

-- A row that was found by its id, written anew with its id, its tenant and its name.
module _ (p q : TenantPaymentProvider) (db : Db) (keyed : IsKeyed db.providers)
    (found : where_rows (has_id p.id) db.providers ≡ p ∷ []) (same_id : q.id ≡ p.id)
    (same_tenant : q.tenant_id ≡ p.tenant_id) (same_name : q.provider ≡ p.provider) where
  abbrev Replaced : List TenantPaymentProvider → Type 0
  Replaced ps =
      IsKeyed ps
      × (where_rows (is_of p.tenant_id p.provider) ps ≡ q ∷ [])
      × ((t : ℕ) (n : String)
          → (t ≢ p.tenant_id) ⊎ (n ≢ p.provider)
          → where_rows (is_of t n) ps ≡ where_rows (is_of t n) db.providers)

  save_provider-Replaced : Replaced (save_provider q db.providers)
  save_provider-Replaced = (
    save_provider-IsKeyed db.providers keyed (has_id p.id) p q found same_id same_tenant same_name,
    save_provider_self db.providers keyed (has_id p.id) p q found same_id same_tenant same_name
        p.tenant_id p.provider refl refl,
    λ t n d.
        save_provider_other db.providers keyed (has_id p.id) p q found same_id same_tenant same_name
          t n (is_of_other t p.tenant_id n p.provider p named d),
  )
    where
      named : is_of p.tenant_id p.provider p ≡ true
      named = unfold is_of in rw (==_refl p.tenant_id, ==_refl p.provider) refl

module _ (now : ℕ) (p : TenantPaymentProvider) (db : Db) (keyed : IsKeyed db.providers)
    (found : where_rows (has_id p.id) db.providers ≡ p ∷ []) where
  -- Over unique keys, deleting a provider by the id of its row returns, keeps the keys unique and
  -- leaves the row in place, disabled. The rows of every other tenant or name are as before.
  pub delete_provider_disables :
      ((delete_provider now p.id db).0 ≡ ok tt)
      × IsKeyed (delete_provider now p.id db).1.providers
      × (where_rows (is_of p.tenant_id p.provider) (delete_provider now p.id db).1.providers
          ≡ record p { is_enabled = false; updated_at = now } ∷ [])
      × ((t : ℕ) (n : String)
          → (t ≢ p.tenant_id) ⊎ (n ≢ p.provider)
          → where_rows (is_of t n) (delete_provider now p.id db).1.providers
            ≡ where_rows (is_of t n) db.providers)
  delete_provider_disables =
      let (k, f, o) = save_provider-Replaced p q db keyed found refl refl refl in
      rw same (refl, k, f, o)
    where
      q : TenantPaymentProvider
      q = record p { is_enabled = false; updated_at = now }

      same :
          delete_provider now p.id db
          ≡ (ok tt, record db { providers = save_provider q db.providers })
      same = unfold delete_provider in rw (delete_provider, found) refl

module _ (c : Codec) (now : ℕ) (u : UpdateProviderRequest) (p : TenantPaymentProvider) (db : Db)
    (keyed : IsKeyed db.providers) (found : where_rows (has_id p.id) db.providers ≡ p ∷ []) where
  -- Over unique keys, updating a provider by the id of its row returns the row with the fields that
  -- the request gives, encrypted credentials among them, and the others as they were. That row is the
  -- one of its tenant and name afterwards, the keys stay unique, and the rows of every other tenant
  -- or name are as before.
  pub update_provider_lem :
      ((update_members c now p.id u db).0 ≡ ok (updated c now u p))
      × IsKeyed (update_members c now p.id u db).1.providers
      × (where_rows (is_of p.tenant_id p.provider) (update_members c now p.id u db).1.providers
          ≡ updated c now u p ∷ [])
      × ((t : ℕ) (n : String)
          → (t ≢ p.tenant_id) ⊎ (n ≢ p.provider)
          → where_rows (is_of t n) (update_members c now p.id u db).1.providers
            ≡ where_rows (is_of t n) db.providers)
  update_provider_lem =
      let (k, f, o) = save_provider-Replaced p (updated c now u p) db keyed found refl refl refl in
      rw same (refl, k, f, o)
    where
      same : update_members c now p.id u db ≡ (
        ok (updated c now u p),
        record db { providers = save_provider (updated c now u p) db.providers },
      )
      same = unfold update_members in rw (update_members, found) refl

module _ (c : Codec) (now provider_id : ℕ) (u : UpdateProviderRequest) (db : Db) where
  -- An update crashes with nothing written, or ends as it does with members.
  pub update_provider-cases :
      (e : EnumFields)
      → let o = update_provider c e now provider_id u db in
        Crashes e db o ⊎ (o ≡ update_members c now provider_id u db)
  unfolding update_provider
  update_provider-cases members = inr refl
  update_provider-cases values =
      let o = update_members c now provider_id u db in
      elim (Result-cases o.0) [
        | inr (m, q) ↦ inr (simp (update_provider, q) (ap (λ z. (z, o.1)) (sym q)))
        | inl (p, q) ↦ elim (Bool-cases (is_some u.mode || is_some u.fee_bearer)) [
          | inl g ↦ inl (refl, simp (update_provider, q, g) refl)
          | inr g ↦ inr (simp (update_provider, q, g) (ap (λ z. (z, o.1)) (sym q)))
        ]
      ]
