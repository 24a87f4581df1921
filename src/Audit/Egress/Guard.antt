-- ===== src/Audit/Egress/Guard.antt =====
-- The socket guard and the check at the call sites agree (src/dsa_operator/audit/egress.py).
use dsa110_operator.Prelude.{
  String, ◌≡◌, subst, Bool, true, false, not, ◌&&◌, ◌||◌, some, List, contains, str_eq, arith,
  Option-cases, inl, inr,
}
use dsa110_operator.Value.{Fields}
use dsa110_operator.Platform.{Platform}
use dsa110_operator.Audit.Egress.{
  HostNames, Resolver, original, guarded, allowed_hosts, is_private, normal, host_allowed,
  with_etcd, install_socket_guard, uninstall_socket_guard, admits,
}

module _ (p : Platform) (names : HostNames) (doc : Fields) (etcd_host : String) where
  -- The host that the guard lets through beyond the allowlist.
  abbrev pub is_etcd : String → Bool
  is_etcd host =
      let h = names.lower (names.strip etcd_host) in
      not (str_eq h "") && str_eq h (normal p names host)

  -- The guard, the check and a later attempt to install another guard.
  pub record Agrees (host : String) (r : Resolver) : Type 0 where
    pub allowed : Bool
    pub checked : host_allowed p names doc host ≡ some allowed
    pub admitted : admits p names r host ≡ (allowed || is_etcd host)

  agrees :
      (host : String) (hosts : List String)
      → str_eq host "" ≡ false
      → allowed_hosts p names doc ≡ some hosts
      → Agrees host (guarded (with_etcd p names etcd_host hosts))
  unfolding host_allowed admits
  agrees host hosts named e = record {
    allowed = is_private p names (normal p names host) || contains hosts (normal p names host);
    checked = ground arith;
    admitted = ground arith;
  }

  -- A guard that was installed in place of the system's resolver lets the name of a host through
  -- exactly if the check at the call sites, which then does not raise, allows that host, or it is the
  -- etcd host of the environment.
  install-Agrees :
      (host : String) (r : Resolver)
      → str_eq host "" ≡ false
      → install_socket_guard p names doc etcd_host original ≡ some (true, r)
      → Agrees host r
  unfolding install_socket_guard
  install-Agrees host r named installed = elim (Option-cases (allowed_hosts p names doc)) [
    | inl e ↦ absurd (ground arith)
    | inr (hosts, e) ↦
        let same : guarded (with_etcd p names etcd_host hosts) ≡ r = ground arith in
        subst (Agrees host) same (agrees host hosts named e)
  ]

  -- Whatever resolver stands there, installing the guard and then another one leaves the first, and
  -- taking it off brings the system's resolver back.
  pub install-install :
      (other : Fields) (other_etcd : String) (r r' r'' : Resolver)
      → install_socket_guard p names doc etcd_host r ≡ some (true, r')
      → install_socket_guard p names other other_etcd r' ≡ some (true, r'')
      → (r'' ≡ r') × (uninstall_socket_guard p names r'' ≡ original)
  unfolding install_socket_guard uninstall_socket_guard
  install-install other other_etcd original r' r'' h k = ground arith
  install-install other other_etcd (guarded old) r' r'' h k = ground arith
