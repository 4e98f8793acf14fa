-- ===== src/Gateway/Hosts/Connectable.antt =====
-- What a host that was saved satisfies.
use ops_terminator.Base.{
  ℕ, zero, suc, Bool, true, false, ◌&&◌, [], Option, none, some, ok, ◌≡◌, ◌⊎◌, inl, inr, refl, sym,
  ap, ◌∙◌, subst, ◌==◌, ==-refl, text_eq, if◌then◌else◌,
}
use ops_terminator.Base.Int.{ℤ, pos, negsuc, is_zero, is_positive, is_not_negative}
use ops_terminator.Base.Text.{Text}
use ops_terminator.Models.Hosts.{Host}
use ops_terminator.Models.Sessions.{host_mode_local, host_mode_ssh}
use ops_terminator.Store.{Disk, lookup}
use ops_terminator.Gateway.Service.{World, GatewayError}
use ops_terminator.Gateway.Service.Frame.{
  after_both, return-eq-ok, save_host-eq-ok, passed_check, chosen, not_chosen,
}
use ops_terminator.Gateway.Hosts.{
  normalize_host, validate_ssh, validate_host, valid_host, created_at_of, fill_port, fill_host,
  upsert_normal, upsert_host,
}

-- A host that commands can run on: the local one, or one with all that SSH needs.
pub record IsSsh (h : Host) : Type 0 where
  pub mode : (h.mode == host_mode_ssh) ≡ true
  pub address : (h.address == []) ≡ false
  pub user : (h.user == []) ≡ false
  pub password_env : (h.password_env == []) ≡ false
  pub port : is_positive h.port ≡ true

is_positive-of_not_zero :
    (n : ℤ) → is_zero n ≡ false → is_not_negative n ≡ true → is_positive n ≡ true
is_positive-of_not_zero (pos zero) given fine = cc
is_positive-of_not_zero (pos (suc n)) given fine = refl
is_positive-of_not_zero (negsuc n) given fine = cc

-- A host with another port, or the same one.
filled : Bool → Host → Host
filled b h = if b then record h { port = pos 22 } else h

pub IsConnectable : Host → Type 0
IsConnectable h = ((h.mode == host_mode_local) ≡ true) ⊎ IsSsh h

filled-IsLocal :
    (b : Bool) (h : Host) → (h.mode == host_mode_local) ≡ true → IsConnectable (filled b h)
unfolding IsConnectable filled
filled-IsLocal true h e = inl e
filled-IsLocal false h e = inl e

filled-IsSsh :
    (zero_port : Bool) (h : Host)
    → (h.mode == host_mode_ssh) ≡ true
    → (h.address == []) ≡ false
    → (h.user == []) ≡ false
    → (h.password_env == []) ≡ false
    → is_zero h.port ≡ zero_port
    → is_not_negative h.port ≡ true
    → IsConnectable (filled zero_port h)
unfolding IsConnectable filled
filled-IsSsh true h mode address user password none_given fine =
    inr
      (record { mode = mode; address = address; user = user; password_env = password; port = refl })
filled-IsSsh false h mode address user password given fine = inr (record {
  mode = mode;
  address = address;
  user = user;
  password_env = password;
  port = is_positive-of_not_zero h.port given fine;
})

with_mode : ℕ → Option Host → Host → Text → Host
with_mode at existing h m = record h {
  created_at = created_at_of at existing;
  updated_at = at;
  display_name = if h.display_name == [] then h.id else h.display_name;
  mode = m;
}

fill_host-with_mode :
    (at : ℕ) (existing : Option Host) (h : Host) {m : Text}
    → (if h.mode == [] then host_mode_local else h.mode) ≡ m
    → IsConnectable (filled ((m == host_mode_ssh) && is_zero h.port) (with_mode at existing h m))
    → IsConnectable (fill_host at existing h)
unfolding fill_host fill_port with_mode filled
fill_host-with_mode at existing h e p =
    subst
      (λ m.
        IsConnectable (filled ((m == host_mode_ssh) && is_zero h.port) (with_mode at existing h m)))
      (sym e) p

-- The early returns of the checks.
passed_mode :
    (x : GatewayError) (blank is_local ssh : Bool) (h : Host)
    → (if blank then none else if is_local then none else if ssh then validate_ssh h else some x)
      ≡ none
    → (blank ≡ true)
      ⊎ ((blank ≡ false) × (is_local ≡ true))
      ⊎ ((blank ≡ false) × (ssh ≡ true) × (validate_ssh h ≡ none))
passed_mode x true is_local ssh h e = inl refl
passed_mode x false true ssh h e = inr (inl (refl, refl))
passed_mode x false false true h e = inr (inr (refl, refl, e))
passed_mode x false false false h e = cc

passed_port : (x : GatewayError) (b : Bool) → (if b then none else some x) ≡ none → b ≡ true
passed_port x true e = refl
passed_port x false e = cc

ssh-IsConnectable :
    (at : ℕ) (existing : Option Host) (h : Host)
    → (h.mode == host_mode_ssh) ≡ true
    → validate_ssh h ≡ none
    → IsConnectable
        (filled ((h.mode == host_mode_ssh) && is_zero h.port) (with_mode at existing h h.mode))
unfolding validate_ssh with_mode
ssh-IsConnectable at existing h ssh e =
    let (address, e1) = passed_check _ _ (h.address == []) e in
    let (user, e2) = passed_check _ _ (h.user == []) e1 in
    let (password, e3) = passed_check _ _ (h.password_env == []) e2 in
    filled-IsSsh ((h.mode == host_mode_ssh) && is_zero h.port) (with_mode at existing h h.mode) ssh
      address user password (sym (ap (λ t. t && is_zero h.port) ssh))
      (passed_port _ (is_not_negative h.port) e3)

fill_host-IsConnectable :
    (at : ℕ) (existing : Option Host) (h : Host)
    → validate_host h ≡ none
    → IsConnectable (fill_host at existing h)
unfolding validate_host with_mode
fill_host-IsConnectable at existing h e =
    let (named, e1) = passed_check _ _ (h.id == []) e in
    elim (passed_mode _ (h.mode == []) (h.mode == host_mode_local) (h.mode == host_mode_ssh) h e1) [
      | inl blank ↦
          fill_host-with_mode at existing h (chosen (h.mode == []) host_mode_local h.mode blank)
            (filled-IsLocal _ (with_mode at existing h host_mode_local) (==-refl host_mode_local))
      | inr (inl (given, is_local)) ↦
          fill_host-with_mode at existing h (not_chosen (h.mode == []) host_mode_local h.mode given)
            (filled-IsLocal _ (with_mode at existing h h.mode) is_local)
      | inr (inr (given, ssh, fine)) ↦
          fill_host-with_mode at existing h (not_chosen (h.mode == []) host_mode_local h.mode given)
            (ssh-IsConnectable at existing h ssh fine)
    ]

valid_host-eq-ok :
    (o : Option GatewayError) (w : World) {w' : World} {u : Unit {0}}
    → valid_host o w ≡ (w', ok u)
    → (w' ≡ w) × (o ≡ none)
valid_host-eq-ok none w h = (cc, refl)
valid_host-eq-ok (some e) w h = cc

module _ (clock : ℕ → ℕ) (disk : Disk) where
  upsert_normal-IsConnectable :
      (normal : Host) (w : World) {w' : World} {h : Host}
      → upsert_normal clock disk normal w ≡ (w', ok h)
      → IsConnectable h × (lookup h.id w'.hosts ≡ some h)
  unfolding upsert_normal
  upsert_normal-IsConnectable normal w {w' = w'} e = after_both _ _ _ e (λ w1 _ s1 e1.
      after_both _ _ _ e1 (λ w2 at s2 e2. after_both _ _ _ e2 (λ w3 existing s3 e3.
        after_both _ _ _ e3 (λ w4 _ s4 e4.
          let (same_world, same_host) = return-eq-ok e4 in
          subst (λ x. IsConnectable x × (lookup x.id w'.hosts ≡ some x)) same_host
            (
              fill_host-IsConnectable at existing normal
                  (valid_host-eq-ok (validate_host normal) w s1).1,
              ap (λ (v : World). lookup (fill_host at existing normal).id v.hosts) (sym same_world)
                  ∙ save_host-eq-ok disk _ w3 s4,
            )))))

-- A host that `UpsertHost` accepts is the one that is stored under its id, and it is local, or has an address, a user, the
-- name of a variable for its password, and a positive port.
pub upsert_host-IsConnectable :
    (clock : ℕ → ℕ) (disk : Disk) (given : Host) (w : World) {w' : World} {h : Host}
    → upsert_host clock disk given w ≡ (w', ok h)
    → IsConnectable h × (lookup h.id w'.hosts ≡ some h)
unfolding upsert_host
upsert_host-IsConnectable clock disk given w e =
    upsert_normal-IsConnectable clock disk (normalize_host given) w e
