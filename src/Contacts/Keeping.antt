-- ===== src/Contacts/Keeping.antt =====
-- No call on a `Store` (internal/contacteconomy/store.go) loses a request or reopens a settled one.
use platarium_gateway_go.Common.{sym, ◌∙◌, List, [], ◌∷◌, ap, subst}
use platarium_gateway_go.Common.Text.{text_eq}
use platarium_gateway_go.Common.Dict.{lookup, lookup-insert_ne}
use platarium_gateway_go.Contacts.Types.{FilePayload, Store}
use platarium_gateway_go.Contacts.Responses.{accepted}
use platarium_gateway_go.Contacts.Step.{Action, act, run, AllAdmitted}
use platarium_gateway_go.Contacts.Life.{Later-refl, Later-trans, accepted-Later}
use platarium_gateway_go.Contacts.Carried.{Kept, insert-Kept, map_values-Kept}
use platarium_gateway_go.Contacts.History.{Change, stays, adds, edits, maps, accepts, act-Change}

Change-Kept : (d e : FilePayload) → Change d e → Kept d.requests e.requests
Change-Kept d e (stays a b) = subst (Kept d.requests) (sym a) (λ j q m. (q, m, Later-refl q))
Change-Kept d e (adds r p free lock pair a b) = subst (Kept d.requests) (sym a) (λ j q m. (
  q,
  lookup-insert_ne r.request_id j r d.requests
        (λ same. let x = ap (λ t. lookup t d.requests) same in cc (x, m, free))
      ∙ m,
  Later-refl q,
))
Change-Kept d e (edits id q r m x a b) =
    subst (Kept d.requests) (sym a) (insert-Kept id q r d.requests m x.0)
Change-Kept d e (maps f x a b) =
    subst (Kept d.requests) (sym a) (map_values-Kept f d.requests (λ q. (x q).0))
Change-Kept d e (accepts now id q m p a b) =
    subst (Kept d.requests) (sym a)
      (insert-Kept id q (accepted q) d.requests m (accepted-Later q p))

-- Through every such sequence no request is lost: it keeps its parties, lock, amount and deadline,
-- and once it is established, rejected or expired it stays so, with its outcome.
pub run-Kept_requests :
    (actions : List Action) (s : Store)
    → AllAdmitted actions
    → Kept s.data_of.requests (run actions s).data_of.requests
unfolding run
run-Kept_requests [] s h j q m = (q, m, Later-refl q)
run-Kept_requests (a ∷ actions) s h j q m =
    let (r, n, x) = Change-Kept s.data_of (act a s).data_of (act-Change a s h.0) j q m in
    let (t, o, y) = run-Kept_requests actions (act a s) h.1 j r n in (t, o, Later-trans q r t x y)
