-- ===== src/Ports/Keys.antt =====
-- The keys of the table of relays, crates/solon-service/src/ports.rs.
use solon.Base.{◌≡◌, ap, true, none, List, [], ◌∷◌, arith, if◌then◌else◌}
use solon.Base.Text.{str_eq}
use solon.Base.TextEq.{str_eq_sound, str_eq_refl}
use solon.Ports.{Key, key_eq, find, without}

pub key_eq_sound : (j k : Key) → key_eq j k ≡ true → j ≡ k
unfolding key_eq
key_eq_sound j k h =
    let a : str_eq j.host_ip k.host_ip ≡ true = ground (arith, h) in
    let b : j.host_port ≡ k.host_port = ground (arith, h) in
    let c : str_eq j.protocol k.protocol ≡ true = ground (arith, h) in
    λ i. record {
      host_ip = str_eq_sound j.host_ip k.host_ip a i;
      host_port = b i;
      protocol = str_eq_sound j.protocol k.protocol c i;
    }

pub key_eq_left : (i k j : Key) → key_eq i k ≡ true → key_eq i j ≡ key_eq k j
key_eq_left i k j h = ap (λ z. key_eq z j) (key_eq_sound i k h)

pub key_eq_right : (i k j : Key) → key_eq k j ≡ true → key_eq i k ≡ key_eq i j
key_eq_right i k j h = ap (λ z. key_eq i z) (key_eq_sound k j h)

pub key_eq_refl : (k : Key) → key_eq k k ≡ true
unfolding key_eq
key_eq_refl k = ground (arith, str_eq_refl k.host_ip, str_eq_refl k.protocol)

module _ {ℓ} {V : Type ℓ} where
  pub find-equal : (k j : Key) (m : List (Key × V)) → key_eq k j ≡ true → find k m ≡ find j m
  find-equal k j m h = ap (λ z. find z m) (key_eq_sound k j h)

  pub find-without :
      (k j : Key) (m : List (Key × V))
      → find j (without k m) ≡ (if key_eq k j then none else find j m)
  unfolding find without
  find-without k j [] = ground arith
  find-without k j ((i, v) ∷ m) =
      ground (arith, find-without k j m, key_eq_left i k j, key_eq_right i k j)
