-- ===== src/Notifications/Laws.antt =====
-- Dispatch delivers to the settings that ask for it, and to no other.
use mathlib.Core.Bool.{false≢true}
use react_go_workflow.Prelude.{
  ◌≡◌, ◌≢◌, ◌↔◌, refl, sym, ◌∙◌, subst, ◌⊎◌, inl, inr, Bool, true, false, ◌&&◌, some, List, [], ◌∷◌,
  ◌++◌, Text, codes, text_eq_iff, keep, In, In-keep, In-of-keep, In-append, In-append_left,
  In-append_right, ◌==◌, ==_iff, if◌then◌else◌, arith,
}
use react_go_workflow.Value.{
  Value, null, nil_object, bool, int, float, string, object, array, Object, index,
}
use react_go_workflow.Workflows.Tables.{
  SettingRow, Channel, in_app, email, webhook, NotifyOn, failure, success, all,
}
use react_go_workflow.Notifications.{
  Delivery, post, payload, post_to, Ended, should_notify, dispatch_in_app, dispatch_webhook,
  dispatch_one, dispatch_all, dispatch,
}

-- What a setting asks for.
abbrev pub Wants : NotifyOn → Text → Type 0
Wants all status = Unit
Wants failure status = status ≡ codes "failed"
Wants success status = status ≡ codes "completed"

-- A request to the URL that is given, if it is a text that is not empty.
abbrev pub PostedTo : Value → Ended → Delivery → Type 0
PostedTo v e d = (url : Text) × (v ≡ string url) × (url ≢ []) × (d ≡ post url (payload e))

-- What goes out over a channel: a stored notification, a request to the URL of the config, or nothing,
-- which is so for every setting with the channel `email`.
abbrev pub Delivers : Channel → Object → Ended → Delivery → Type 0
Delivers in_app config e d = d ≡ dispatch_in_app e
Delivers email config e d = ⊥
Delivers webhook config e d = PostedTo (index config (codes "url")) e d

should_notify_iff :
    (n : NotifyOn) (status : Text) → (should_notify n status ≡ true) ↔ Wants n status
unfolding should_notify
should_notify_iff all status = (λ h. tt, λ w. refl)
should_notify_iff failure status = text_eq_iff status (codes "failed")
should_notify_iff success status = text_eq_iff status (codes "completed")

post_to-PostedTo : (v : Value) (e : Ended) (d : Delivery) → In d (post_to v e) ↔ PostedTo v e d
post_to-PostedTo (string (c ∷ url)) e d = (out, back)
  where
    out : In d (post (c ∷ url) (payload e) ∷ []) → PostedTo (string (c ∷ url)) e d
    out (inl same) = (c ∷ url, refl, (λ h. cc), sym same)
    out (inr i) = elim i [ ]

    back : PostedTo (string (c ∷ url)) e d → In d (post (c ∷ url) (payload e) ∷ [])
    back (u, is, full, same) = inl (cc)
post_to-PostedTo (string []) e d = (λ i. elim i [ ], λ (u, is, full, same). absurd (full (cc)))
post_to-PostedTo null e d = (λ i. elim i [ ], λ (u, is, full, same). absurd (cc))
post_to-PostedTo nil_object e d = (λ i. elim i [ ], λ (u, is, full, same). absurd (cc))
post_to-PostedTo (bool b) e d = (λ i. elim i [ ], λ (u, is, full, same). absurd (cc))
post_to-PostedTo (int n) e d = (λ i. elim i [ ], λ (u, is, full, same). absurd (cc))
post_to-PostedTo (float x) e d = (λ i. elim i [ ], λ (u, is, full, same). absurd (cc))
post_to-PostedTo (object f) e d = (λ i. elim i [ ], λ (u, is, full, same). absurd (cc))
post_to-PostedTo (array l) e d = (λ i. elim i [ ], λ (u, is, full, same). absurd (cc))

webhook-Delivers :
    (s : SettingRow) (e : Ended) (d : Delivery)
    → In d (dispatch_webhook s.config e) ↔ Delivers webhook s.config e d
unfolding dispatch_webhook
webhook-Delivers s e d = post_to-PostedTo (index s.config (codes "url")) e d

dispatch_one-Delivers :
    (s : SettingRow) (e : Ended) (d : Delivery)
    → In d (dispatch_one s e) ↔ Delivers s.channel s.config e d
unfolding dispatch_one
dispatch_one-Delivers s e d = go s.channel
  where
    go :
        (c : Channel)
        → In d (elim c [
          | in_app ↦ dispatch_in_app e ∷ []
          | webhook ↦ dispatch_webhook s.config e
          | email ↦ []
        ])
          ↔ Delivers c s.config e d
    go in_app = (one, λ same. inl (sym same))
      where
        one : In d (dispatch_in_app e ∷ []) → d ≡ dispatch_in_app e
        one (inl same) = sym same
        one (inr i) = elim i [ ]
    go email = (λ i. i, λ i. i)
    go webhook = webhook-Delivers s e d

-- Some setting of the list asks for the delivery.
abbrev pub Asked : List SettingRow → Ended → Delivery → Type 0
Asked l e d =
    (s : SettingRow) × In s l × Wants s.notify_on e.status × Delivers s.channel s.config e d

Asked-head :
    (s : SettingRow) (l : List SettingRow) (e : Ended) (d : Delivery)
    → Asked (s ∷ l) e d
    → (Wants s.notify_on e.status × Delivers s.channel s.config e d) ⊎ Asked l e d
Asked-head s l e d (r, inl same, wants, delivers) = inl (
    subst (λ (x : SettingRow). Wants x.notify_on e.status × Delivers x.channel x.config e d)
      (sym same) (wants, delivers))
Asked-head s l e d (r, inr i, wants, delivers) = inr (r, i, wants, delivers)

Asked-tail :
    (s : SettingRow) (l : List SettingRow) (e : Ended) (d : Delivery)
    → Asked l e d
    → Asked (s ∷ l) e d
Asked-tail s l e d (r, i, wants, delivers) = (r, inr i, wants, delivers)

dispatch_all-Asked :
    (l : List SettingRow) (e : Ended) (d : Delivery) → In d (dispatch_all l e) ↔ Asked l e d
unfolding dispatch_all
dispatch_all-Asked [] e d = (λ i. elim i [ ], λ (s, i, w, v). elim i [ ])
dispatch_all-Asked (s ∷ l) e d =
    go (should_notify s.notify_on e.status) refl (dispatch_all-Asked l e d)
  where
    go :
        (b : Bool)
        → should_notify s.notify_on e.status ≡ b
        → In d (dispatch_all l e) ↔ Asked l e d
        → In d (if b then dispatch_one s e ++ dispatch_all l e else dispatch_all l e)
          ↔ Asked (s ∷ l) e d
    go true is later = (out, back)
      where
        pick : In d (dispatch_one s e) ⊎ In d (dispatch_all l e) → Asked (s ∷ l) e d
        pick (inl i) = (
          s,
          inl refl,
          (should_notify_iff s.notify_on e.status).0 is,
          (dispatch_one-Delivers s e d).0 i,
        )
        pick (inr i) = Asked-tail s l e d (later.0 i)

        out : In d (dispatch_one s e ++ dispatch_all l e) → Asked (s ∷ l) e d
        out i = pick (In-append d (dispatch_one s e) (dispatch_all l e) i)

        put :
            (Wants s.notify_on e.status × Delivers s.channel s.config e d) ⊎ Asked l e d
            → In d (dispatch_one s e ++ dispatch_all l e)
        put (inl (wants, delivers)) =
            In-append_left d (dispatch_one s e) (dispatch_all l e)
              ((dispatch_one-Delivers s e d).1 delivers)
        put (inr asked) = In-append_right d (dispatch_one s e) (dispatch_all l e) (later.1 asked)

        back : Asked (s ∷ l) e d → In d (dispatch_one s e ++ dispatch_all l e)
        back asked = put (Asked-head s l e d asked)
    go false is later = (λ i. Asked-tail s l e d (later.0 i), back)
      where
        put :
            (Wants s.notify_on e.status × Delivers s.channel s.config e d) ⊎ Asked l e d
            → In d (dispatch_all l e)
        put (inl (wants, delivers)) =
            absurd (false≢true (sym is ∙ (should_notify_iff s.notify_on e.status).1 wants))
        put (inr asked) = later.1 asked

        back : Asked (s ∷ l) e d → In d (dispatch_all l e)
        back asked = put (Asked-head s l e d asked)

-- Some enabled setting of the workflow asks for the delivery.
abbrev pub Requested : List SettingRow → Ended → Delivery → Type 0
Requested rows e d =
    (s : SettingRow) × In s rows
    × (s.workflow_id ≡ e.workflow_id)
    × (s.enabled ≡ true)
    × Wants s.notify_on e.status
    × Delivers s.channel s.config e d

both : (a b : Bool) → (a && b) ≡ true → (a ≡ true) × (b ≡ true)
both a b h = ground arith

-- Dispatch delivers exactly what some enabled setting of the workflow asks for: `all` asks always,
-- `failure` for the status `failed` and `success` for `completed`; the channel in_app stores a
-- notification, the channel webhook posts to the URL of the config, if that is a text and not empty, and
-- the channel email delivers nothing.
pub dispatch-Requested :
    (rows : List SettingRow) (e : Ended) (d : Delivery)
    → In d (dispatch (some rows) e) ↔ Requested rows e d
unfolding dispatch
dispatch-Requested rows e d = (out, back)
  where
    mine : SettingRow → Bool
    mine s = s.workflow_id == e.workflow_id && s.enabled

    found : Asked (keep mine rows) e d → Requested rows e d
    found (s, i, wants, delivers) =
        let (j, passes) = In-of-keep mine s rows i in
        let (same, on) = both (s.workflow_id == e.workflow_id) s.enabled passes in
        (s, j, (==_iff s.workflow_id e.workflow_id).0 same, on, wants, delivers)

    out : In d (dispatch_all (keep mine rows) e) → Requested rows e d
    out i = found ((dispatch_all-Asked (keep mine rows) e d).0 i)

    back : Requested rows e d → In d (dispatch_all (keep mine rows) e)
    back (s, j, same, on, wants, delivers) = (dispatch_all-Asked (keep mine rows) e d).1 (
      s,
      In-keep mine s rows j (rw ((==_iff s.workflow_id e.workflow_id).1 same, on) refl),
      wants,
      delivers,
    )
