-- ===== src/Deals/Book.antt =====
-- `Book` of internal/deals/book.go: its cases, and the methods on them. A method runs under the
-- mutex, so it is one step from state to state. What `flushLocked` leaves at `path` is a field of
-- the state: the snapshot itself, since its JSON form holds the same fields.
use platarium_gateway_go.Common.{
  ℕ, Bool, true, ◌&&◌, ◌||◌, not, Option, none, some, List, [], ◌∷◌, ltb, if◌then◌else◌, ◌==◌,
}
use platarium_gateway_go.Common.Text.{Text, text_eq, text_beq}
use platarium_gateway_go.Common.Dict.{Dict, insert, map_values}
use platarium_gateway_go.Deals.Sets.{contains}
use platarium_gateway_go.Deals.Quorum.{quorum_of}

pub record Brief : Type 0 where
  pub case_id : Text
  pub terms : Text
  pub terms_hash : Text
  pub prior_result : Text
  pub reveals_open : Bool

-- `cse`; the set `panelSet` is the list of its keys.
pub record Case : Type 0 where
  pub brief : Brief
  pub escrow_id : Text
  pub panel : List Text
  pub panel_set : List Text
  pub commits : Dict Text
  pub reveals : Dict Text
  pub quorum : Text
  pub deadline : ℕ
  pub frozen : Bool
  pub instance_no : ℕ
  pub generation : ℕ

pub record PersistCase : Type 0 where
  pub brief : Brief
  pub escrow_id : Text
  pub panel : List Text
  pub commits : Dict Text
  pub reveals : Dict Text
  pub quorum : Text
  pub deadline : ℕ
  pub frozen : Bool
  pub instance_no : ℕ
  pub generation : ℕ

pub record PersistSnap : Type 0 where
  pub roster : List Text
  pub height : ℕ
  pub cases : List PersistCase

-- `file` is the snapshot at `path`, and `writable` says whether the writes of `flushLocked` succeed.
pub record Book : Type 0 where
  pub cases : Dict Case
  pub by_escrow : Dict Text
  pub roster : List Text
  pub height : ℕ
  pub path : Text
  pub file : Option PersistSnap
  pub writable : Bool

pub data Error : Type 0 where
  terms_required few_volunteers id_collision unknown_case not_on_panel already_committed
        hash_required bad_verdict no_match already_revealed no_quorum :
      Error

-- `panic` is a nil dereference.
pub data Result (A : Type 0) : Type 0 where
  ok : A → Result A
  err : Error → Result A
  panic : Result A

-- The loop that fills `panelSet` from the panel.
unfoldable pub set_from : List Text → List Text → List Text
unfolding contains
set_from seen [] = seen
set_from seen (k ∷ ks) = set_from (if contains k seen then seen else k ∷ seen) ks

unfoldable pub persist : Case → PersistCase
persist c = record {
  brief = c.brief;
  escrow_id = c.escrow_id;
  panel = c.panel;
  commits = c.commits;
  reveals = c.reveals;
  quorum = c.quorum;
  deadline = c.deadline;
  frozen = c.frozen;
  instance_no = c.instance_no;
  generation = c.generation;
}

unfoldable pub to_case : PersistCase → Case
unfolding set_from
to_case p = record {
  brief = p.brief;
  escrow_id = p.escrow_id;
  panel = p.panel;
  panel_set = set_from [] p.panel;
  commits = p.commits;
  reveals = p.reveals;
  quorum = p.quorum;
  deadline = p.deadline;
  frozen = p.frozen;
  instance_no = p.instance_no;
  generation = p.generation;
}

unfoldable pub persist_all : Dict Case → List PersistCase
unfolding persist
persist_all [] = []
persist_all ((k, c) ∷ d) = persist c ∷ persist_all d

unfoldable pub flush_locked : Book → Book
unfolding persist_all text_beq
flush_locked b =
    if b.path == []
    then b
    else if b.writable
    then record b {
      file = some (record { roster = b.roster; height = b.height; cases = persist_all b.cases });
    }
    else b

unfoldable pub new_book : Book
new_book = record {
  cases = [];
  by_escrow = [];
  roster = [];
  height = 0;
  path = [];
  file = none;
  writable = true;
}

-- The loop of `OpenBook` over the rows of the snapshot.
unfoldable pub load_rows : List PersistCase → Book → Book
unfolding to_case insert
load_rows [] b = b
load_rows (row ∷ rows) b =
    let c = to_case row in
    load_rows rows (record b {
      cases = insert c.brief.case_id c b.cases;
      by_escrow = insert c.escrow_id c.brief.case_id b.by_escrow;
    })

-- `OpenBook`; the snapshot is `none` where the file is missing or is not JSON.
unfoldable pub open_book : Text → Option PersistSnap → Bool → Book
unfolding new_book load_rows text_beq
open_book path file writable =
    let b = record new_book { path = path; file = file; writable = writable } in
    if path == [] then b else elim file [
      | none ↦ b
      | some snap ↦ load_rows snap.cases (record b { roster = snap.roster; height = snap.height })
    ]

-- The loop of `SetRoster`.
unfoldable pub roster_from : List Text → List Text → List Text
unfolding contains text_beq
roster_from seen [] = []
roster_from seen (k ∷ ks) =
    let skip = roster_from seen ks in
    let keep = k ∷ roster_from (k ∷ seen) ks in if k == [] || contains k seen then skip else keep

unfoldable pub set_roster : List Text → Book → Book
unfolding roster_from flush_locked
set_roster keys b = flush_locked (record b { roster = roster_from [] keys })

abbrev pub text_or : Option Text → Text → Text
text_or none d = d
text_or (some t) d = t

-- `if c.quorum == "" { if q, ok := quorumOf(c.reveals); ok { c.quorum = q } }`
unfoldable pub settle_quorum : Case → Case
unfolding quorum_of text_beq
settle_quorum c =
    if c.quorum == [] then record c { quorum = text_or (quorum_of c.reveals) c.quorum } else c

-- The body of the loop of `SetHeight`.
unfoldable pub freeze_case : ℕ → Case → Case
unfolding settle_quorum
freeze_case h c =
    if not c.frozen && ltb c.deadline h then settle_quorum (record c { frozen = true }) else c

unfoldable pub set_height : ℕ → Book → Book
unfolding freeze_case map_values flush_locked
set_height h b = flush_locked (record b { height = h; cases = map_values (freeze_case h) b.cases })
