-- ===== src/Action.antt =====
-- The texts "tool:target" by which an action is proposed, stored and dispatched
-- (src/agent/nodes.py, and `split(":", 1)` everywhere), and the names in src/tools/registry.py.
use Prim.Native.Char.{Char, code}
use Prim.Native.String.{◌++◌}
use Prim.Native.String.append
use durable_approval_gated_r.Prelude.{
  String, ◌≡◌, Bool, Option, none, some, List, [], ◌∷◌, arith, ◌==◌, if◌then◌else◌, ◌&&◌, not, true,
}
use durable_approval_gated_r.Act.{Result, ok, raised, not_an_action}

abbrev pub known_tools : List String
known_tools =
    "restart_service" ∷ "scale_service" ∷ "delete_records" ∷ "clear_cache" ∷ "apply_config_change"
    ∷ "rollback_deployment" ∷ []

abbrev pub record_kinds : List String
record_kinds = "order" ∷ "session" ∷ "cache_entry" ∷ []

-- `f"{tool}:{target}"`
unfoldable pub join_action : String → String → String
join_action tool target = tool ++ (":" ++ target)

-- Put a character back in front of the tool that a split of the rest has found.
abbrev before_colon : Char → Option (String × String) → Option (String × String)
before_colon c none = none
before_colon c (some (tool, target)) = some (String.◌∷◌ c tool, target)

unfoldable pub split_colon : String → Option (String × String)
split_colon String.[] = none
split_colon (String.◌∷◌ c s) =
    let rest = before_colon c (split_colon s) in if code c == b':' then some ("", s) else rest

abbrev unpacked : String → Option (String × String) → Result (String × String)
unpacked s none = raised (not_an_action s)
unpacked s (some p) = ok p

-- `tool, target = s.split(":", 1)`: the target is all that follows the first colon.
unfoldable pub split_action : String → Result (String × String)
unfolding split_colon
split_action s = unpacked s (split_colon s)

-- `":" not in s`
unfoldable pub has_no_colon : String → Bool
has_no_colon String.[] = true
has_no_colon (String.◌∷◌ c s) = not (code c == b':') && has_no_colon s

pub split_colon-join :
    (tool target : String)
    → has_no_colon tool ≡ true
    → split_colon (join_action tool target) ≡ some (tool, target)
unfolding split_colon has_no_colon join_action
split_colon-join String.[] target h =
    rw (append.nil (":" ++ target)) (rw (append.cons _ String.[] target) (rw (append.nil target)))
split_colon-join (String.◌∷◌ c s) target h =
    rw (append.cons c s (":" ++ target)) (ground (arith, split_colon-join s target))

-- What `join_action` writes, `split_action` reads back, if the tool's name has no colon.
split_action-join_action :
    (tool target : String)
    → has_no_colon tool ≡ true
    → split_action (join_action tool target) ≡ ok (tool, target)
unfolding split_action
split_action-join_action tool target h = rw (split_colon-join tool target h, unpacked)
