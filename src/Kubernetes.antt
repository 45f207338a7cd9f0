-- ===== src/Kubernetes.antt =====
-- internal/proxy/discovery_kubernetes.go: backends from EndpointSlices. What a reconcile asks of the
-- store and of the drain manager is returned as actions, in order. The informer and its debouncing,
-- which only decide when a reconcile runs, are not modelled.
pub mod Sync
pub mod Repeats
mod Tests
use Prim.Native.String.{◌++◌ as concat}
use Prim.Native.Char.{code}
use sticky_proxy.Prelude.{
  ℕ, zero, suc, ◌+◌, ◌/◌, ◌%◌, String, Bool, true, false, not, ◌&&◌, ◌||◌, Option, none, some, List,
  [], ◌∷◌, ◌++◌, ltb, ◌==◌, if◌then◌else◌, str_dec, ite, get_elem?, get_or,
}
use sticky_proxy.Maps
use sticky_proxy.Maps.{Map}

-- `epState`
pub data EpState : Type 0 where
  unknown active terminating : EpState

pub record EndpointPort : Type 0 where
  pub name : Option String
  pub port : Option ℕ

-- An endpoint with its conditions, `none` for a nil pointer.
pub record Endpoint : Type 0 where
  pub addresses : List String
  pub ready : Option Bool
  pub serving : Option Bool
  pub terminates : Option Bool

pub record EndpointSlice : Type 0 where
  pub ports : List EndpointPort
  pub endpoints : List Endpoint

-- the first port with the name and a number
unfoldable pub named_port : String → List EndpointPort → ℕ
named_port name [] = 0
named_port name (p ∷ ps) =
    let rest = named_port name ps in
    elim p.name [
      | none ↦ rest
      | some n ↦ ite (str_dec n name) (elim p.port [ none ↦ rest | some k ↦ k ]) rest
    ]

first_port : List EndpointPort → ℕ
first_port [] = 0
first_port (p ∷ ps) = get_or 0 p.port

unfoldable pub resolve_port : String → List EndpointPort → ℕ
unfolding named_port first_port
resolve_port port_name ports =
    ite (str_dec port_name "") (first_port ports) (named_port port_name ports)

-- `strconv.Itoa`, with the number as fuel: it has no more digits than that, or is 0
digit : ℕ → String
digit n = get_or "" (get_elem? ("0" ∷ "1" ∷ "2" ∷ "3" ∷ "4" ∷ "5" ∷ "6" ∷ "7" ∷ "8" ∷ "9" ∷ []) n)

itoa_from : ℕ → ℕ → String → String
unfolding digit
itoa_from zero n acc = acc
itoa_from (suc fuel) n acc =
    let more = itoa_from fuel (n / 10) (concat (digit (n % 10)) acc) in if n == 0 then acc else more

unfoldable pub itoa : ℕ → String
unfolding itoa_from
itoa n = if n == 0 then "0" else itoa_from n n ""

unfoldable pub has_colon : String → Bool
has_colon String.[] = false
has_colon (String.◌∷◌ c s) = code c == b':' || has_colon s

-- `"http://" + net.JoinHostPort(addr, strconv.Itoa(port))`
unfoldable pub url_of : String → ℕ → String
unfolding itoa has_colon
url_of addr port = concat "http://" (
    concat (if has_colon addr then concat "[" (concat addr "]") else addr) (concat ":" (itoa port)))

-- The state that the conditions give; `none` is an endpoint to ignore.
unfoldable pub classify : Endpoint → Option EpState
classify ep =
    let is_terminating = get_or false ep.terminates in
    if get_or false ep.ready && not is_terminating
    then some active
    else if is_terminating && get_or false ep.serving
    then some terminating
    else none

note_addresses : ℕ → Option EpState → List String → Map EpState → Map EpState
unfolding url_of
note_addresses port none addrs desired = desired
note_addresses port (some s) [] desired = desired
note_addresses port (some s) (a ∷ addrs) desired =
    note_addresses port (some s) addrs (Maps.put (url_of a port) s desired)

note_endpoints : ℕ → List Endpoint → Map EpState → Map EpState
unfolding note_addresses classify
note_endpoints port [] desired = desired
note_endpoints port (ep ∷ eps) desired =
    note_endpoints port eps (note_addresses port (classify ep) ep.addresses desired)

build_from : String → List EndpointSlice → Map EpState → Map EpState
unfolding resolve_port note_endpoints
build_from port_name [] desired = desired
build_from port_name (s ∷ ss) desired =
    let port = resolve_port port_name s.ports in
    build_from port_name ss (if port == 0 then desired else note_endpoints port s.endpoints desired)

unfoldable pub build_desired_state : String → List EndpointSlice → Map EpState
unfolding build_from
build_desired_state port_name slices = build_from port_name slices []

pub data Action : Type 0 where
  cancel_drain add_backend start_drain remove_backend : String → Action

-- `drains` says that there is a drain manager.
pub record Discovery : Type 0 where
  pub known : Map EpState
  pub drains : Bool

abbrev pub is_active : Option EpState → Bool
is_active (some active) = true
is_active _ = false

abbrev pub is_terminating : Option EpState → Bool
is_terminating (some terminating) = true
is_terminating _ = false

-- One round of the first loop.
unfoldable pub decide : Bool → String → EpState → Option EpState → List Action
decide drains url unknown prev = []
decide drains url active prev =
    (if is_terminating prev && drains then cancel_drain url ∷ [] else [])
    ++ (if is_active prev then [] else add_backend url ∷ [])
decide drains url terminating prev =
    if is_terminating prev
    then []
    else (if drains then start_drain url else remove_backend url) ∷ []

unfoldable pub first_loop : Bool → Map EpState → Map EpState → List Action
unfolding decide
first_loop drains prev [] = []
first_loop drains prev ((url, s) ∷ desired) =
    decide drains url s (Maps.get url prev) ++ first_loop drains prev desired

-- Backends that disappeared from the slices entirely.
unfoldable pub second_loop : Map EpState → Map EpState → List Action
second_loop desired [] = []
second_loop desired ((url, s) ∷ prev) =
    let rest = second_loop desired prev in
    if Maps.has url desired then rest else remove_backend url ∷ rest

-- A failing store changes nothing here: errors are logged.
unfoldable pub apply_desired_state : Discovery → Map EpState → Discovery × List Action
unfolding first_loop second_loop
apply_desired_state k desired = (
  record k { known = desired },
  first_loop k.drains k.known desired ++ second_loop desired k.known,
)
