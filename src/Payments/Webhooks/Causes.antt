-- ===== src/Payments/Webhooks/Causes.antt =====
-- What stands behind a change of the transactions by a delivery.
use mathlib.Core.Option.{some-injective}
use vinc_api.Base.{
  ap, ◌∙◌, ◌==◌, ==_refl, not, where_rows, others-update_rows, ◌&&◌, ==_sound, Bool, Bool-cases,
  find, find_holds, string_eq, nat_eq, option_eq, [], ◌∷◌, ℕ, ◌≡◌, ◌⊎◌, inl, inr, String, Option,
  none, some, List, ok, arith, given, Result-cases, Option-cases,
}
use vinc_api.Payments.Model.{Db, PaymentTransaction, TenantPaymentProvider}
use vinc_api.Payments.Encryption.{Codec, decrypt}
use vinc_api.Payments.Webhooks.Handler.{
  Handler, handle, attempt, find_existing, find_transaction, save, Locals, start, locate, settle,
  finish,
}

module _ {P E : Type 0} (c : Codec) (h : Handler P E) (now : ℕ) (p : P) (sig : Option String) where
  -- Credentials that decrypt, and the verification of the payload with them: the transactions end
  -- with what the processing of the verified event makes of the one that was found.
  pub record Settled (t : PaymentTransaction) (tp : TenantPaymentProvider)
      (ts after : List PaymentTransaction) : Type 0 where
    pub creds : List (String × String)
    pub event : E
    pub decrypts : decrypt c tp.credentials ≡ ok creds
    pub verifies : h.verify creds p sig ≡ ok event
    pub saves : after ≡ save (h.process now event t).0 ts
    pub keeps_others :
        where_rows (λ r. not (r.id == (h.process now event t).0.id)) after
        ≡ where_rows (λ r. not (r.id == (h.process now event t).0.id)) ts

  others-save :
      (t : PaymentTransaction) (ts after : List PaymentTransaction)
      → after ≡ save t ts
      → where_rows (λ r. not (r.id == t.id)) after ≡ where_rows (λ r. not (r.id == t.id)) ts
  unfolding save
  others-save t ts after saves =
      rw saves (others-update_rows (λ r. r.id == t.id) t (==_refl t.id) ts)

  finish-save :
      (e : E) (t : PaymentTransaction) (v : Locals) (ts : List PaymentTransaction)
      → (finish c h now e t v ts).2 ≡ save (h.process now e t).0 ts
  unfolding finish
  finish-save e t v ts = ground arith

  settle_cause :
      (t : PaymentTransaction) (tp : TenantPaymentProvider) (v : Locals)
      (ts : List PaymentTransaction)
      → ((settle c h now p sig (t, tp) v ts).2 ≡ ts)
        ⊎ Settled t tp ts (settle c h now p sig (t, tp) v ts).2
  unfolding settle
  settle_cause t tp v ts = elim (Result-cases (decrypt c tp.credentials)) [
    | inr (m, q) ↦ inl (ground arith)
    | inl (creds, q) ↦ elim (Result-cases (h.verify creds p sig)) [
      | inr (m, r) ↦ inl (ground arith)
      | inl (e, r) ↦
          let saves : (settle c h now p sig (t, tp) v ts).2 ≡ save (h.process now e t).0 ts =
            ground (arith, finish-save e t (record v { transaction_id = some t.id }) ts) in
          inr (record {
            creds = creds;
            event = e;
            decrypts = q;
            verifies = r;
            saves = saves;
            keeps_others = others-save _ ts _ saves;
          })
    ]
  ]

-- What the join of a transaction with the provider of its tenant finds.
find_transaction_sound :
    (provider ref : String) (ps : List TenantPaymentProvider) (ts : List PaymentTransaction)
    (t : PaymentTransaction) (p : TenantPaymentProvider)
    → find_transaction provider ref ps ts ≡ some (t, p)
    → (t.provider_payment_intent_id ≡ some ref)
      × (t.provider ≡ provider)
      × (p.tenant_id ≡ t.tenant_id)
      × (p.provider ≡ provider)
unfolding find_transaction
find_transaction_sound provider ref ps [] t p q = absurd cc
find_transaction_sound provider ref ps (x ∷ xs) t p q =
    let named = x.provider_payment_intent_id == some ref && x.provider == provider in
    elim (Bool-cases named) [
      | inr n ↦ find_transaction_sound provider ref ps xs t p (rw n at q)
      | inl y ↦
          let of_x : TenantPaymentProvider → Bool =
            λ r. r.tenant_id == x.tenant_id && r.provider == x.provider in
          elim (Option-cases (find of_x ps)) [
            | inl n ↦ find_transaction_sound provider ref ps xs t p (rw (y, n) at q)
            | inr (r, f) ↦
                let holds = find_holds of_x ps r f in
                let pair = some-injective (x, r) (t, p) (rw (y, f) at q) in
                let is_t : x ≡ t = ap (λ z. z.0) pair in
                let is_p : r ≡ p = ap (λ z. z.1) pair in
                let ref_x = ==_sound x.provider_payment_intent_id (some ref) (ground arith) in
                let name_x = ==_sound x.provider provider (ground arith) in
                let tenant = ==_sound r.tenant_id x.tenant_id (ground arith) in
                let name_r = ==_sound r.provider x.provider (ground arith) in
                rw (← is_t, ← is_p) (ref_x, name_x, tenant, name_r ∙ name_x)
          ]
    ]

-- The row that the event names, and what was done with it.
pub record Cause {P E : Type 0} (c : Codec) (h : Handler P E) (now : ℕ) (p : P)
    (sig : Option String) (db : Db) (after : List PaymentTransaction) : Type 0 where
  pub parsed_event : E
  pub named : Option String
  pub ref : String
  pub transaction : PaymentTransaction
  pub tenant_provider : TenantPaymentProvider
  pub parses : h.parse p ≡ ok parsed_event
  pub refers : h.reference parsed_event ≡ ok named
  pub is_given : given named ≡ some ref
  pub finds :
      find_transaction h.provider ref db.providers db.transactions
      ≡ some (transaction, tenant_provider)
  pub of_reference : transaction.provider_payment_intent_id ≡ some ref
  pub of_provider : transaction.provider ≡ h.provider
  pub of_tenant : tenant_provider.tenant_id ≡ transaction.tenant_id
  pub same_provider : tenant_provider.provider ≡ h.provider
  pub settled : Settled c h now p sig transaction tenant_provider db.transactions after

module _ {P E : Type 0} (c : Codec) (h : Handler P E) (now : ℕ) (p : P) (sig : Option String)
    (db : Db) where
  locate-Cause :
      (e : E) (v : Locals)
      → h.parse p ≡ ok e
      → ((locate c h now p sig e v db).2 ≡ db.transactions)
        ⊎ Cause c h now p sig db (locate c h now p sig e v db).2
  unfolding locate
  locate-Cause e v parses = elim (Result-cases (h.reference e)) [
    | inr (m, q) ↦ inl (ground arith)
    | inl (r, q) ↦ elim (Option-cases (given r)) [
      | inl g ↦ inl (ground arith)
      | inr (ref, g) ↦
          elim (Option-cases (find_transaction h.provider ref db.providers db.transactions)) [
            | inl f ↦ inl (ground arith)
            | inr ((t, tp), f) ↦
                let same_end : (locate c h now p sig e v db).2
                    ≡ (settle c h now p sig (t, tp) v db.transactions).2 =
                  ground arith in
                let matches =
                  find_transaction_sound h.provider ref db.providers db.transactions t tp f in
                rw same_end (elim (settle_cause c h now p sig t tp v db.transactions) [
                  | inl same ↦ inl same
                  | inr s ↦ inr (record {
                    parsed_event = e;
                    named = r;
                    ref = ref;
                    transaction = t;
                    tenant_provider = tp;
                    parses = parses;
                    refers = q;
                    is_given = g;
                    finds = f;
                    of_reference = matches.0;
                    of_provider = matches.1;
                    of_tenant = matches.2;
                    same_provider = matches.3;
                    settled = s;
                  })
                ])
          ]
    ]
  ]

  -- A delivery changes no transaction, or it writes what the processing of its event makes of the one
  -- that the event names, by its reference at the handler's provider, and leaves every transaction of
  -- another id, once the handler has verified the payload with the decrypted credentials of that
  -- transaction's tenant.
  pub handle-Cause :
      ((handle c h now p sig db).1.transactions ≡ db.transactions)
      ⊎ Cause c h now p sig db (handle c h now p sig db).1.transactions
  unfolding handle attempt
  handle-Cause = elim (Result-cases (h.parse p)) [
    | inr (m, q) ↦ inl (ground arith)
    | inl (e, q) ↦
        elim (Result-cases (find_existing h.provider (given (h.event_id e)) db.webhook_logs)) [
          | inr (m, f) ↦ inl (ground arith)
          | inl (some l, f) ↦ inl (ground arith)
          | inl (none, f) ↦
              let v : Locals = record start {
                event_type = h.event_type e;
                event_id = h.event_id e;
              } in
              let same_end : (attempt c h now p sig db).2 ≡ (locate c h now p sig e v db).2 =
                ground arith in
              rw same_end (locate-Cause e v q)
        ]
  ]
