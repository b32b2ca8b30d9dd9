-- ===== src/Tests/Words.antt =====
-- Names and keywords.
use kukicha.Prelude.{not, ◌≡◌, ◌↔◌, refl, codes, same}
use kukicha.Token.{is_type, token_func, token_petiole, token_isnt, token_identifier}
use kukicha.Token.Names.{type_name}
use kukicha.Token.Names.Distinct.{type_name_injective, type_name_unknown}
use kukicha.Token.Keywords.{lookup_keyword, is_keyword}
use kukicha.Token.Keywords.Words.{is_keyword_lem}

type_name_injective_example : token_func ≡ token_func
type_name_injective_example = type_name_injective token_func token_func refl

type_name_unknown_example : (type_name token_isnt ≡ "UNKNOWN") ↔ (token_isnt ≡ token_isnt)
type_name_unknown_example = type_name_unknown token_isnt

lookup_package : lookup_keyword (codes "package") ≡ token_petiole
unfolding lookup_keyword same
lookup_package = refl

is_keyword_lem_example :
    is_keyword (codes "funny") ≡ not (is_type (lookup_keyword (codes "funny")) token_identifier)
is_keyword_lem_example = is_keyword_lem (codes "funny")
