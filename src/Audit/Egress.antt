-- ===== src/Audit/Egress.antt =====
-- The egress allowlist (src/dsa_operator/audit/egress.py). `doc` is the parsed allowlist file, and
-- `none` as a result of a walk over it is an exception. The guard replaces `socket.getaddrinfo`;
-- `Resolver` says which function stands there.
pub mod Guard
use text.Mathlib.Text.{when}
use Prim.Native.String
use dsa110_operator.Prelude.{
  ℕ, String, Bool, true, false, not, ◌&&◌, ◌||◌, Option, none, some, List, [], ◌∷◌, ◌++◌, contains,
  str_eq, if◌then◌else◌,
}
use dsa110_operator.Value.{
  Value, null, bool, int, float, str, arr, obj, Items, nil, item, Fields, end, field, get_or,
  as_dict, truthy, is_str,
}
use dsa110_operator.Convert.{to_text}
use dsa110_operator.Platform.{Platform}

-- What is taken from Python's `str` and `ipaddress`.
pub record HostNames : Type 0 where
  pub lower : String → String
  -- s.rstrip(".")
  pub strip_dots : String → String
  -- s.strip()
  pub strip : String → String
  -- s.endswith(".local")
  pub ends_with_local : String → Bool
  -- An address (not a name) that is loopback, private or link-local.
  pub is_local_address : String → Bool

-- The values that a `for` over a value takes; None and other empty values give none of them.
chars : String → List Value
chars String.[] = []
chars (String.◌∷◌ ch s) = str (String.◌∷◌ ch String.[]) ∷ chars s

elements : Items → List Value
elements nil = []
elements (item v vs) = v ∷ elements vs

keys : Fields → List Value
keys end = []
keys (field k v d) = str k ∷ keys d

unfoldable pub iterate : Value → Option (List Value)
unfolding chars elements keys
iterate (arr vs) = some (elements vs)
iterate (str s) = some (chars s)
iterate (obj d) = some (keys d)
iterate v = if truthy v then none else some []

-- What stands for `socket.getaddrinfo`: the system's, or the guard with its allowlist.
pub data Resolver : Type 0 where
  original : Resolver
  guarded : List String → Resolver

module _ (p : Platform) (names : HostNames) where
  lowered : List Value → List String
  lowered [] = []
  lowered (v ∷ vs) = names.lower (to_text p v) ∷ lowered vs

  -- The hosts of one entry. One that is reached over SSH gives none.
  unfoldable pub entry_hosts : Value → Option (List String)
  unfolding lowered iterate
  entry_hosts v = elim (as_dict v) [
    | none ↦ some []
    | some entry ↦
        if is_str (get_or "transport" null entry) "ssh"
        then some []
        else elim (iterate (get_or "hosts" (arr nil) entry)) [
          | none ↦ none
          | some hosts ↦ some (lowered hosts)
        ]
  ]

  abbrev joined : Option (List String) → Option (List String) → Option (List String)
  joined (some xs) (some ys) = some (xs ++ ys)
  joined _ _ = none

  unfoldable pub hosts_of : Fields → Option (List String)
  unfolding entry_hosts
  hosts_of end = some []
  hosts_of (field k v d) = joined (entry_hosts v) (hosts_of d)

  unfoldable pub allowed_hosts : Fields → Option (List String)
  unfolding hosts_of
  allowed_hosts doc =
      let allow = get_or "allow" (obj end) doc in
      if truthy allow then elim (as_dict allow) [ none ↦ none | some d ↦ hosts_of d ] else some []

  unfoldable pub is_private : String → Bool
  is_private host =
      str_eq host "localhost" || (names.ends_with_local host || names.is_local_address host)

  -- `h.lower().rstrip(".")`
  abbrev pub normal : String → String
  normal host = names.strip_dots (names.lower host)

  unfoldable pub host_allowed : Fields → String → Option Bool
  unfolding is_private
  host_allowed doc host =
      if str_eq host ""
      then some false
      else if is_private (normal host)
      then some true
      else elim (allowed_hosts doc) [
        | none ↦ none
        | some hosts ↦ some (contains hosts (normal host))
      ]

  -- `assert_url_allowed`, from `urlparse(url).hostname or ""`; where it is not true it raises.
  unfoldable pub url_allowed : (String → String) → Fields → String → Option Bool
  unfolding host_allowed
  url_allowed hostname doc url = host_allowed doc (names.lower (hostname url))

  -- Adds the etcd host of the environment, where there is one.
  abbrev pub with_etcd : String → List String → List String
  with_etcd etcd_host hosts =
      let h = names.lower (names.strip etcd_host) in if str_eq h "" then hosts else h ∷ hosts

  abbrev install_once : Resolver → List String → Resolver
  install_once original hosts = guarded hosts
  install_once (guarded old) hosts = guarded old

  -- `none` where reading the allowlist raises
  unfoldable pub install_socket_guard : Fields → String → Resolver → Option (Bool × Resolver)
  unfolding allowed_hosts
  install_socket_guard doc etcd_host r = elim (allowed_hosts doc) [
    | none ↦ none
    | some hosts ↦ some (true, install_once r (with_etcd etcd_host hosts))
  ]

  unfoldable pub uninstall_socket_guard : Resolver → Resolver
  uninstall_socket_guard original = original
  uninstall_socket_guard (guarded hosts) = original

  -- Whether a call of `getaddrinfo` goes on to the system's; a refused one raises EgressError.
  unfoldable pub admits : Resolver → String → Bool
  unfolding is_private
  admits original host = true
  admits (guarded hosts) host =
      let h = if str_eq host "" then "" else normal host in is_private h || contains hosts h

  abbrev is_on : String → Bool
  is_on s = contains ("1" ∷ "true" ∷ "yes" ∷ "on" ∷ []) (names.lower s)

  unfoldable pub maybe_install : Fields → String → String → Resolver → Option (Bool × Resolver)
  unfolding install_socket_guard
  maybe_install doc enforce etcd_host r =
      if is_on enforce then install_socket_guard doc etcd_host r else some (false, r)
