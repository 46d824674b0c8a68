-- ===== src/Router/Queries.antt =====
-- The targets of crates/server/src/router.rs, and the forwarding of a query to the queriers in turn.
use timelakedb.Base.{
  ℕ, zero, suc, ◌+◌, ◌%◌, ◌^◌, Bool, ◌&&◌, Option, none, some, List, [], ◌∷◌, ◌++◌, map, length,
  get_elem?, leb, ltb, if◌then◌else◌,
}
use timelakedb.Base.Str.{Str, str, str_ltb}
use timelakedb.Base.Sort.{sort_by}
use timelakedb.Router.Write.{Target}

pub record QueryTarget : Type 0 where
  pub id : Str
  pub sql_url : Str

-- The cursor and the counters are atomic `u64`s.
pub record RouterState : Type 0 where
  pub targets : List Target
  pub queriers : List QueryTarget
  pub next_querier : ℕ
  pub max_body_bytes : ℕ
  pub queries_forwarded : ℕ
  pub query_errors : ℕ

-- An ingester or a querier: its id and its address.
abbrev pub Node : Type 0
Node = Str × Str

abbrev pub by_id : Node → Node → Bool
by_id a b = str_ltb a.0 b.0

unfoldable pub build_targets : List Node → List Target
unfolding sort_by
build_targets ingesters =
    map (λ n. record { id = n.0; write_url = str "http://" ++ n.1 ++ str "/api/v3/write_lp" })
      (sort_by by_id ingesters)

unfoldable pub build_queriers : List Node → List QueryTarget
unfolding sort_by
build_queriers queriers =
    map (λ n. record { id = n.0; sql_url = str "http://" ++ n.1 ++ str "/api/sql" })
      (sort_by by_id queriers)

unfoldable pub with_queriers : ℕ → List Node → List Node → RouterState
unfolding build_targets build_queriers
with_queriers max_body_bytes ingesters queriers = record {
  targets = build_targets ingesters;
  queriers = build_queriers queriers;
  next_querier = 0;
  max_body_bytes = max_body_bytes;
  queries_forwarded = 0;
  query_errors = 0;
}

unfoldable pub update : List Node → List Node → RouterState → RouterState
unfolding build_targets build_queriers
update ingesters queriers s = record s {
  targets = build_targets ingesters;
  queriers = build_queriers queriers;
}

-- `queriers[(n + i) % queriers.len()]` for the `left` indices from `i` on.
unfoldable pub rotation_from : List QueryTarget → ℕ → ℕ → List QueryTarget
rotation_from queriers at zero = []
rotation_from queriers at (suc left) = elim (get_elem? queriers (at % length queriers)) [
  | none ↦ rotation_from queriers (at + 1) left
  | some q ↦ q ∷ rotation_from queriers (at + 1) left
]

abbrev pub rotation : RouterState → List QueryTarget → List QueryTarget × RouterState
rotation s [] = ([], s)
rotation s (q ∷ queriers) = (
  rotation_from (q ∷ queriers) s.next_querier (length (q ∷ queriers)),
  record s { next_querier = (s.next_querier + 1) % 2 ^ 64 },
)

unfoldable pub querier_rotation : RouterState → List QueryTarget × RouterState
unfolding rotation_from
querier_rotation s = rotation s s.queriers

-- What a querier answers: a status, and a body if that arrives.
abbrev pub Reply : Type 0
Reply = ℕ × Option Str

abbrev pub with_errors : ℕ → RouterState → RouterState
with_errors n s = record s { query_errors = n }

abbrev pub query_error : RouterState → RouterState
query_error s = with_errors ((s.query_errors + 1) % 2 ^ 64) s

-- An answer, also a refusal, is final.
abbrev pub replied : RouterState → Reply → RouterState × Reply
replied s (status, body) =
    let s1 : RouterState = record s { queries_forwarded = (s.queries_forwarded + 1) % 2 ^ 64 } in
    let s2 = if leb 200 status && ltb status 300 then s1 else query_error s1 in
    elim body [ none ↦ (query_error s2, (502, none)) | some text ↦ (s2, (status, some text)) ]

-- The queriers in turn, until one can be reached.
unfoldable pub ask :
    (QueryTarget → Option Reply) → List QueryTarget → RouterState → RouterState × Reply
ask send [] s = (s, (502, none))
ask send (q ∷ queriers) s = elim (send q) [
  | none ↦ ask send queriers (query_error s)
  | some reply ↦ replied s reply
]

abbrev pub ask_first :
    (QueryTarget → Option Reply) → List QueryTarget × RouterState → RouterState × Reply
ask_first send ([], s) = (s, (501, none))
ask_first send (q ∷ queriers, s) = ask send (q ∷ queriers) s

unfoldable pub sql : (QueryTarget → Option Reply) → RouterState → RouterState × Reply
unfolding ask querier_rotation
sql send s = ask_first send (querier_rotation s)
