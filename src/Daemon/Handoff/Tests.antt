-- ===== src/Daemon/Handoff/Tests.antt =====
-- The handoff data of small objects, with their tokens.
use mod_socket_handoff.Base.{
  ℕ, true, false, ◌≡◌, refl, none, some, List, [], ◌∷◌, ◌++◌, Bytes, codes, arith,
}
use mod_socket_handoff.Base.Int.{pos}
use mod_socket_handoff.Daemon.Handoff.{
  Kind, object, array, string, primitive, Token, leading, trailing, json_tok_eq, same_bytes,
  json_tok_copy, json_find_key, token_at, handoff_parse_data, with_tokens,
}
use mod_socket_handoff.Daemon.Handoff.Keys.{lookup, tokens_of, find_key-lookup, array-hides}
use mod_socket_handoff.Daemon.Handoff.Receive.{handoff_recv_fd, handoff_extract_fd, received}

abbrev tok : Kind → ℕ → ℕ → ℕ → Token
tok kind start end size = record { kind = kind; start = start; end = end; size = size }

abbrev two_keys : Bytes
two_keys = codes "{\"id\":7,\"to\":\"me\"}"

abbrev two_pairs : List (Token × Token)
two_pairs = (tok string 2 4 1, tok primitive 6 7 0) ∷ (tok string 9 11 1, tok string 14 16 0) ∷ []

find_key-lookup_example :
    token_at
      (tok object 0 18 2 ∷ tokens_of two_pairs)
      (json_find_key two_keys (tok object 0 18 2 ∷ tokens_of two_pairs) (codes "to"))
    ≡ lookup two_keys (codes "to") two_pairs
find_key-lookup_example =
    find_key-lookup two_keys (codes "to") (tok object 0 18 2) two_pairs refl (refl, (refl, tt))

-- And it is the second value.
second_value : lookup two_keys (codes "to") two_pairs ≡ some (tok string 14 16 0)
unfolding json_tok_eq same_bytes
second_value = refl

abbrev with_array : Bytes
with_array = codes "{\"a\":[1],\"to\":\"me\"}"

array-hides_example :
    json_find_key with_array
      (tok object 0 19 2 ∷ tok string 2 3 1 ∷ tok array 5 8 1 ∷ (tok primitive 6 7 0 ∷ [])
        ++ (tok string 10 12 1 ∷ tok string 15 17 0 ∷ []))
      (codes "to")
    ≡ none
unfolding json_tok_eq same_bytes
array-hides_example =
    array-hides with_array (codes "to") (tok object 0 19 2) (tok array 5 8 1) (tok string 2 3 1)
      (tok string 10 12 1) (tok string 15 17 0) (tok primitive 6 7 0 ∷ []) refl refl refl
      (omega arith) refl refl refl

copied : json_tok_copy two_keys (tok string 14 16 0) 3 ≡ some (codes "me")
unfolding json_tok_copy
copied = refl

-- Only blanks: the defaults.
nothing_sent :
    handoff_parse_data
      (λ (digits : Bytes). pos 0)
      (λ (text : Bytes) (n : ℕ). some [])
      (codes " \n")
      2
    ≡ (record { user_id = pos 0; max_tokens = pos 0; prompt = none; model = none; text = [] })
unfolding handoff_parse_data with_tokens leading trailing
nothing_sent = refl

received_whole :
    handoff_recv_fd (
      some (record {
        bytes = 9;
        is_cut = false;
        control_is_cut = false;
        control = some (record { is_rights = true; fd = 7 });
      }))
    ≡ received 7 9
unfolding handoff_recv_fd handoff_extract_fd
received_whole = refl
