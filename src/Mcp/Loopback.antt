-- ===== src/Mcp/Loopback.antt =====
-- A URL whose host is an IPv6 address, in shirita-core/src/mcp/http.rs.
use shirita.Prelude.{
  ◌≡◌, refl, ℕ, Bool, true, false, [], ◌∷◌, ◌++◌, any, ◌||◌, ◌==◌, arith, Bool-cases, inl, inr,
  none, ◌≢◌,
}
use shirita.Text.{Text, codes, text_eq, text_eq_iff, starts_with}
use shirita.Mcp.Http.{until, host_of, is_loopback, validate_url, has_credentials, http_scheme}

any-until : (p : ℕ → Bool) (s : Text) → any p (until p s) ≡ false
unfolding until
any-until p [] = refl
any-until p (c ∷ s) = elim (Bool-cases (p c)) [
  | inl e ↦ rw e refl
  | inr e ↦ rw e (rw e (any-until p s))
]

abbrev ends_host : ℕ → Bool
ends_host c = c == b'/' || (c == b':' || c == b'?')

differs : (s t : Text) → any ends_host s ≡ false → any ends_host t ≡ true → text_eq s t ≡ false
differs s t p q = elim (Bool-cases (text_eq s t)) [
  | inl e ↦ let same = (text_eq_iff s t).0 e in absurd (ground arith)
  | inr e ↦ e
]

bracket-is_loopback : (rest : Text) → is_loopback (host_of (b'[' ∷ rest)) ≡ false
unfolding is_loopback host_of starts_with text_eq until
bracket-is_loopback rest =
    differs (until ends_host rest) (codes "::1]") (any-until ends_host rest) refl

-- The loopback host of IPv6 is not let through: a URL with a plain http scheme is refused whenever its
-- host stands in brackets.
pub validate_url-bracket : (rest : Text) → validate_url (http_scheme ++ (b'[' ∷ rest)) ≢ none
unfolding validate_url starts_with
validate_url-bracket rest h = elim (Bool-cases (has_credentials (http_scheme ++ (b'[' ∷ rest)))) [
  | inl e ↦ absurd (ground arith)
  | inr e ↦ let f = bracket-is_loopback rest in absurd (ground arith)
]
