-- ===== src/Users/Links/Routes/History.antt =====
-- The history of a link, as the routes of the audit give it, and the link itself.
use vinc_api.Base.{
  ℕ, suc, ◌≡◌, refl, sym, ap, ◌∙◌, nat_eq, Option, none, some, List, [], ◌∷◌, ◌++◌, where_rows,
  take, Bool-cases, inl, inr,
}
use vinc_api.Users.Model.{LinkType, link_type_eq, AuditEvent, Store}
use vinc_api.Users.Links.Reads.{newest_first, newest, get_link_history}
use vinc_api.Users.Links.Routes.Views.{LinkSnapshot, View, links_view}
use vinc_api.Users.Links.Routes.Journal.{
  IsJournal, concerns, outcome, apply_event, no_links, replay,
}

abbrev pub newest_of : List AuditEvent → Option AuditEvent
newest_of [] = none
newest_of (e ∷ es) = some e

-- What an event tells of its link, or else what was known before.
abbrev pub told : Option AuditEvent → Option LinkSnapshot → Option LinkSnapshot
told none before = before
told (some e) before = outcome e

newest_of-snoc :
    (es : List AuditEvent) (e : AuditEvent) (before : Option LinkSnapshot)
    → told (newest_of (es ++ (e ∷ []))) before ≡ told (newest_of es) (outcome e)
newest_of-snoc [] e before = refl
newest_of-snoc (d ∷ es) e before = refl

newest_of-take : (n : ℕ) (es : List AuditEvent) → newest_of (take (suc n) es) ≡ newest_of es
unfolding take
newest_of-take n [] = refl
newest_of-take n (e ∷ es) = refl

-- Of all the events of a log, only the newest about a link counts for it.
replay-newest :
    (m : View) (es : List AuditEvent) (t : LinkType) (u i : ℕ)
    → replay m es t u i
      ≡ told (newest_of (newest_first (where_rows (λ e. concerns e t u i) es))) (m t u i)
unfolding replay newest_first where_rows
replay-newest m [] t u i = refl
replay-newest m (e ∷ es) t u i = elim (Bool-cases (concerns e t u i)) [
  | inl y ↦
      rw
        (
          replay-newest (apply_event e m) es t u i,
          y,
          newest_of-snoc (newest_first (where_rows (λ d. concerns d t u i) es)) e (m t u i),
        )
        refl
  | inr n ↦ rw (replay-newest (apply_event e m) es t u i, n) refl
]

-- If the log is a journal of the links, then the first record of a link's history, with any limit but
-- zero, tells the link: it has the role, the status, the flag and the notes of that record's snapshot,
-- or is not there if the record is of its deletion; and a link without a record is not there.
pub get_link_history-tells :
    (s : Store)
    → IsJournal s
    → (t : LinkType) (u i n : ℕ)
    → links_view s t u i ≡ told (newest_of (get_link_history t u i (suc n) s)) none
unfolding get_link_history newest concerns
get_link_history-tells s journal t u i n =
    sym (journal t u i)
    ∙ replay-newest no_links s.events t u i
    ∙ ap (λ o. told o none)
        (sym (newest_of-take n (newest_first (where_rows (λ e. concerns e t u i) s.events))))
