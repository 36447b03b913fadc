-- ===== src/Dashboard/Format.antt =====
-- visualizator/dashboard/src/lib/actionFormatter.ts and actionHashDecoder.ts: how actions are shown.
-- The types of actions are the five of the enum. The known selectors are passed on.
use sync_rollups.Prelude.{
  ℕ, ◌+◌, ◌-◌, JsString, codes, str_eq, to_lower, none, some, List, [], ◌∷◌, ◌++◌, map, take, drop,
  length, leb, ◌==◌, if◌then◌else◌,
}
use sync_rollups.Prelude.Int.{ℤ}
use sync_rollups.Types.{ActionType, Action, call, result, l2tx, revert, revert_continue}
use sync_rollups.Types.BigInt.{to_string}
use sync_rollups.Maps.{JsMap, text_key, map_get, map_set}
use sync_rollups.Dashboard.Store.{Detail}

unfoldable pub action_type_name : ActionType → JsString
action_type_name call = codes "CALL"
action_type_name result = codes "RESULT"
action_type_name l2tx = codes "L2TX"
action_type_name revert = codes "REVERT"
action_type_name revert_continue = codes "REVERT_CONTINUE"

unfoldable pub truncate_address : JsString → JsString
truncate_address addr =
    if leb (length addr) 10
    then addr
    else take 6 addr ++ (codes "..." ++ drop (length addr - 4) addr)

unfoldable pub truncate_hex : ℕ → JsString → JsString
truncate_hex chars hex =
    if leb (length hex) (chars + 4) then hex else take (chars + 2) hex ++ codes "..."

-- `texts.join(separator)`
unfoldable pub join : JsString → List JsString → JsString
join separator [] = []
join separator (t ∷ []) = t
join separator (t ∷ u ∷ texts) = t ++ (separator ++ join separator (u ∷ texts))

unfoldable pub format_scope : List ℤ → JsString
unfolding join
format_scope scope =
    if length scope == 0
    then codes "[]"
    else codes "[" ++ (join (codes ",") (map (to_string 10) scope) ++ codes "]")

abbrev pub zero_address : JsString
zero_address = codes "0x0000000000000000000000000000000000000000"

abbrev pub known_selectors : JsMap JsString JsString
known_selectors =
    (codes "0xd09de08a", codes "increment()")
    ∷ (codes "0x06661abd", codes "counter()")
    ∷ (codes "0x5a6a9e05", codes "targetCounter()")
    ∷ []

unfoldable pub register_selector :
    JsMap JsString JsString → JsString → JsString → JsMap JsString JsString
register_selector known selector name = map_set known (to_lower selector) name

unfoldable pub selector_of : JsString → JsString
selector_of payload = if leb 10 (length payload) then take 10 payload else payload

unfoldable pub show_address : JsString → JsString → JsString
unfolding truncate_address
show_address zero addr = if str_eq addr zero_address then zero else truncate_address addr

unfoldable pub show_payload : JsMap JsString JsString → JsString → JsString
unfolding selector_of truncate_hex
show_payload known payload = elim (map_get known (to_lower (selector_of payload))) [
  | some name ↦ selector_of payload ++ (codes " (" ++ (name ++ codes ")"))
  | none ↦ if leb (length payload) 20 then payload else truncate_hex 8 payload
]

unfoldable pub format_action_fields : JsMap JsString JsString → Action → Detail
unfolding action_type_name show_address show_payload format_scope
format_action_fields known a =
    (codes "actionType", action_type_name a.action_type)
    ∷ (codes "rollupId", to_string 10 a.rollup_id)
    ∷ (codes "destination", show_address (codes "address(0)") a.destination)
    ∷ (codes "value", to_string 10 a.value)
    ∷ (codes "data", show_payload known a.payload)
    ∷ (codes "failed", if a.failed then codes "true" else codes "false")
    ∷ (codes "sourceAddress", show_address (codes "address(0)") a.source_address)
    ∷ (codes "sourceRollup", to_string 10 a.source_rollup)
    ∷ (codes "scope", format_scope a.scope)
    ∷ []

unfoldable pub rollup_name : ℤ → JsString
rollup_name rollup =
    if str_eq (to_string 10 rollup) (codes "0")
    then codes "MAIN"
    else codes "L2(" ++ (to_string 10 rollup ++ codes ")")

-- The name of a call is that of its selector, or the selector itself.
unfoldable pub function_name : JsMap JsString JsString → JsString → JsString
unfolding selector_of
function_name known payload = elim (map_get known (to_lower (selector_of payload))) [
  | some name ↦ name
  | none ↦ selector_of payload
]

unfoldable pub summary_with : Action → JsString → JsString
unfolding action_type_name rollup_name
summary_with a inner =
    action_type_name a.action_type
    ++ (codes "{" ++ (rollup_name a.rollup_id ++ (codes ", " ++ (inner ++ codes "}"))))

unfoldable pub call_summary : JsMap JsString JsString → Action → JsString
unfolding show_address function_name format_scope
call_summary known a =
    show_address (codes "0x0") a.destination
    ++ (codes ", "
        ++ (function_name known a.payload
            ++ (codes ", src="
                ++ (show_address (codes "0x0") a.source_address
                    ++ (if length a.scope == 0
                        then []
                        else codes ", scope=" ++ format_scope a.scope)))))

unfoldable pub action_summary : JsMap JsString JsString → Action → JsString
unfolding summary_with call_summary truncate_hex
action_summary known a = elim a.action_type [
  | call ↦ summary_with a (call_summary known a)
  | l2tx ↦ summary_with a (codes "rlp=" ++ truncate_hex 6 a.payload)
  | _ ↦ summary_with a (
      codes "data="
      ++ (if str_eq a.payload (codes "0x") then codes "\"\"" else truncate_hex 6 a.payload))
]
