-- ===== src/Tests/Requests.antt =====
-- The theorems on the signing protocol, applied to a backend whose user always mistypes.
use vault_signer.Base.{◌*◌, nat_Eq, bytes_Eq, ◌≡◌, ◌⊎◌, codes, some, none, [], ◌∷◌}
use vault_signer.Throttle.{ThrottleTracker, second, secret_key}
use vault_signer.Protocol.{passphrase_incorrect, RequestJson, SigningBackend, handle_request}
use vault_signer.Protocol.Dispatch.{Admitted, handle_request_changes}
use vault_signer.Tests.Toy.{toy}

abbrev brink : ThrottleTracker
brink = record {
  failure_threshold = 5;
  base_delay = 1 * second;
  max_delay = 300 * second;
  states = (secret_key toy 3, record { consecutive_failures = 4; locked_until = none }) ∷ [];
}

abbrev mistyping : SigningBackend ThrottleTracker
mistyping = record {
  tracker = λ t. t;
  with_tracker = λ t s. t;
  list_public_keys = λ s. [];
  sign = λ caller key_id message s. (passphrase_incorrect, s);
}

-- Every request signs with key 3.
abbrev toy_json : RequestJson
toy_json = record {
  parse_request = λ raw. some (record { method = codes "vaultsigner.sign"; params = []; id = raw });
  parse_params = λ params. some (record { key_id = 3 ∷ []; message_b64 = []; algorithm = none });
}

handle_request_changes_example :
    Admitted toy mistyping toy_json 10 (1 ∷ []) brink
    ⊎ ((handle_request toy mistyping toy_json 10 11 [] (1 ∷ []) brink).1 ≡ brink)
handle_request_changes_example =
    handle_request_changes toy mistyping toy_json 10 11 [] (1 ∷ []) brink
