-- ===== src/Coord/Access.antt =====
-- `verifyIdentity` of coord/server.go: who is let in, and what a refused request does.
use qrystal.Prelude.{
  ◌≡◌, ◌↔◌, ap, inl, inr, true, none, some, ◌++◌, arith, list_eq, nat_eq, pair_eq, contains,
  Option-cases, Bool-cases, ok,
}
use qrystal.Text.{Bytes, strip_prefix, strip_prefix-append, strip_prefix-eq_some}
use qrystal.Util.Token.{Token, parse_token, hash}
use qrystal.Coord.{Server, TokenInfo, Request, Response, status_code}
use qrystal.Coord.Handlers.{scheme, verify_identity, serve}

-- The request carries, in the scheme of the server, a token whose hash is registered for the
-- network and device of its path.
pub record IsEntitled (sha_256 : Bytes → Bytes) (s : Server) (r : Request) : Type 0 where
  pub token : Token
  pub text : Bytes
  pub info : TokenInfo
  pub has_scheme : r.authorization ≡ scheme ++ text
  pub is_token : parse_token text ≡ some token
  pub is_registered : s.tokens (hash sha_256 token) ≡ some info
  pub is_identity : contains info.identities (r.network, r.device) ≡ true

module _ (sha_256 : Bytes → Bytes) (s : Server) (r : Request) where
  verify_identity-IsEntitled : verify_identity sha_256 s r ≡ none → IsEntitled sha_256 s r
  unfolding verify_identity
  verify_identity-IsEntitled h = elim (Option-cases (strip_prefix scheme r.authorization)) [
    | inl e ↦ ground arith
    | inr (text, e) ↦ elim (Option-cases (parse_token text)) [
      | inl p ↦ ground arith
      | inr (token, p) ↦ elim (Option-cases (s.tokens (hash sha_256 token))) [
        | inl q ↦ ground arith
        | inr (info, q) ↦ elim (Bool-cases (contains info.identities (r.network, r.device))) [
          | inl k ↦ record {
            token = token;
            text = text;
            info = info;
            has_scheme = strip_prefix-eq_some scheme r.authorization text e;
            is_token = p;
            is_registered = q;
            is_identity = k;
          }
          | inr k ↦ ground arith
        ]
      ]
    ]
  ]

  entitled-verify_identity : IsEntitled sha_256 s r → verify_identity sha_256 s r ≡ none
  unfolding verify_identity
  entitled-verify_identity h =
      ground (arith, strip_prefix-append scheme h.text, ap (strip_prefix scheme) h.has_scheme)

  -- `verifyIdentity` lets a request in exactly if it is entitled.
  pub verify_identity_iff : (verify_identity sha_256 s r ≡ none) ↔ IsEntitled sha_256 s r
  verify_identity_iff = (verify_identity-IsEntitled, entitled-verify_identity)

  serve_refused :
      (w : Response)
      → verify_identity sha_256 s r ≡ some w
      → (serve sha_256 s r ≡ ok (s, w)) × (status_code w ≡ 401)
  unfolding serve verify_identity
  serve_refused w h = ground arith

  -- A request that is not entitled is answered 401 and changes nothing, whatever its action.
  pub serve_unentitled :
      ¬ IsEntitled sha_256 s r
      → (w : Response) × (serve sha_256 s r ≡ ok (s, w)) × (status_code w ≡ 401)
  serve_unentitled h = elim (Option-cases (verify_identity sha_256 s r)) [
    | inl e ↦ absurd (h (verify_identity-IsEntitled e))
    | inr (w, e) ↦ let (p, q) = serve_refused w e in (w, p, q)
  ]
