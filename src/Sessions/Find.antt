-- ===== src/Sessions/Find.antt =====
-- Finding a session by a fragment of its token: `find_token` of
-- tools/wave/testing/sessions_manager.py.
use wmas.Prelude.{
  String, Bool, false, Option, none, some, List, [], ◌∷◌, ◌≡◌, refl, arith, ltb, keep, starts_with,
  text_length, mem_text, ◌&&◌, Bool-cases, inl, inr, ◌==◌, eq_iff,
}
use wmas.Prelude.Dict.{keys}
use wmas.Server.{Server}
use wmas.Sessions.{find_token}

abbrev begins : String → String → Bool
begins fragment token = starts_with token fragment

mem_text-keep :
    (fragment t : String) (tokens : List String)
    → mem_text t (keep (begins fragment) tokens) ≡ (mem_text t tokens && starts_with t fragment)
unfolding keep mem_text
mem_text-keep fragment t [] = refl
mem_text-keep fragment t (u ∷ tokens) = ground (arith, mem_text-keep fragment t tokens, eq_iff u t)

only_one :
    (token : String) (kept : List String)
    → (elim kept as (λ x. Option String) [
      | [] ↦ none
      | t ∷ rest ↦ elim rest as (λ x. Option String) [ [] ↦ some t | other ∷ others ↦ none ]
    ])
      ≡ some token
    → kept ≡ token ∷ []
only_one token [] h = ground arith
only_one token (t ∷ []) h = ground (arith, h)
only_one token (t ∷ u ∷ others) h = ground arith

-- Where `find_token` returns a token, the fragment has eight characters at least, and a text is a
-- cached session's token that starts with the fragment exactly where it is the returned one.
pub find_token_unique :
    (server : Server) (fragment token other : String)
    → find_token server fragment ≡ some token
    → (ltb (text_length fragment) 8 ≡ false)
      × ((mem_text other (keys server.sessions) && starts_with other fragment) ≡ (token == other))
unfolding find_token mem_text
find_token_unique server fragment token other h = elim (Bool-cases (ltb (text_length fragment) 8)) [
  | inl e ↦ ground (arith, e, h)
  | inr e ↦
      let kept = keep (begins fragment) (keys server.sessions) in
      let same : kept ≡ token ∷ [] = only_one token kept (ground (arith, e, h)) in
      (e, ground (arith, mem_text-keep fragment other (keys server.sessions), same))
]
