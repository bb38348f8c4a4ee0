-- ===== src/Args/Flags.antt =====
-- The flags of `parseUdpPeerArgs` of src/app/ArgParser.cpp as the tests that they stand for.
use agent_team_test.Prelude.{
  ℕ, ◌+◌, ◌≡◌, ◌↔◌, refl, Bool, true, false, not, ◌&&◌, ◌||◌, if◌then◌else◌, bit_or, arith,
}
use agent_team_test.Args.{flag_has_src, flag_has_dst, flag_err_src_fmt, flag_err_dst_fmt, flags_ok}

-- The conjunction of two tests.
pub and_iff {ℓ κ} :
    {P : Type ℓ} {Q : Type κ} {b c : Bool}
    → (b ≡ true) ↔ P
    → (c ≡ true) ↔ Q
    → ((b && c) ≡ true) ↔ (P × Q)
and_iff {b = true} {c = c} p q = ((λ h. (p.0 refl, q.0 h)), (λ h. q.1 h.1))
and_iff {b = false} {c = c} p q = ((λ h. absurd (ground (arith, h))), (λ h. p.1 h.0))

pub iff_refl : (P : Type 0) → P ↔ P
iff_refl P = ((λ h. h), (λ h. h))

-- The flags of four tests: a source, a destination, a bad source, a bad destination.
abbrev pub flags_of : Bool → Bool → Bool → Bool → ℕ
flags_of s d es ed =
    (if s then 1 else 0) + (if d then 2 else 0) + (if es then 4 else 0) + (if ed then 8 else 0)

pub set_has_src :
    (s d es ed : Bool) → bit_or (flags_of s d es ed) flag_has_src ≡ flags_of true d es ed
set_has_src s d es ed = ground arith

pub set_has_dst :
    (s d es ed : Bool) → bit_or (flags_of s d es ed) flag_has_dst ≡ flags_of s true es ed
set_has_dst s d es ed = ground arith

pub set_err_src :
    (s d es ed : Bool) → bit_or (flags_of s d es ed) flag_err_src_fmt ≡ flags_of s d true ed
set_err_src s d es ed = ground arith

pub set_err_dst :
    (s d es ed : Bool) → bit_or (flags_of s d es ed) flag_err_dst_fmt ≡ flags_of s d es true
set_err_dst s d es ed = ground arith

pub flags_ok_lem : (s d es ed : Bool) → flags_ok (flags_of s d es ed) ≡ (s && d && not es && not ed)
unfolding flags_ok
flags_ok_lem s d es ed = ground arith

pub dead_src : (a b c e : Bool) → (a && b && c && false && e) ≡ false
dead_src a b c e = ground arith

pub dead_dst : (a b c e : Bool) → (a && b && c && e && false) ≡ false
dead_dst a b c e = ground arith

pub regroup_src :
    (ok all s d es ed : Bool)
    → (ok && (all && true && d && not es && not ed))
      ≡ ((ok && all) && (s || true) && d && not es && not ed)
regroup_src ok all s d es ed = ground arith

pub regroup_dst :
    (ok all s d es ed : Bool)
    → (ok && (all && s && true && not es && not ed))
      ≡ ((ok && all) && s && (d || true) && not es && not ed)
regroup_dst ok all s d es ed = ground arith
