-- ===== src/Access/Tests.antt =====
-- A tenant with one key and one paired device, and the theorems applied to it. The digest is the
-- decimal of the text read in base 256.
use integrado_web_xd.Prelude.{
  ℕ, ◌+◌, ◌*◌, ◌≡◌, refl, arith, String, true, none, some, List, [], ◌∷◌,
}
use integrado_web_xd.Prelude.Text.{codes, decimal}
use integrado_web_xd.Http.{accepted, http_error}
use integrado_web_xd.Access.{
  validate_empresa_id, get_active_tenant, Tenant, Store, hash_api_key, authenticate,
  rotate_tenant_key, key_expiry,
}
use integrado_web_xd.Access.Keys.{authenticate-is_key_of, rotate-authenticate, expected}
use integrado_web_xd.Access.Devices.{paired_device}
use integrado_web_xd.Access.Pairing.{
  new_code, create_pairing_code, activate_pairing_code, format_pairing_code, normalize_pairing_code,
}
use integrado_web_xd.Access.Pairing.Codes.{normalize-format_pairing_code}
use integrado_web_xd.Access.Pairing.SingleUse.{single_use, hashes_unique}

abbrev number : ℕ → List ℕ → ℕ
number n [] = n
number n (c ∷ cs) = number (n * 256 + c) cs

abbrev digest : List ℕ → String
digest cs = decimal (number 0 cs)

abbrev loja : Tenant
loja = record {
  empresa_id = "loja";
  nome = "Loja";
  api_key_hash = hash_api_key digest "k1";
  api_key_last_rotated_at = none;
  api_key_expires_at = none;
  ativo = true;
}

abbrev store : Store
store = record { tenants = loja ∷ []; credentials = []; pairing_codes = [] }

abbrev code : List ℕ
code = codes "AB12CD34EF"

abbrev with_code : Store
with_code = record store { pairing_codes = new_code digest 100 "p" code "loja" 10 "admin" ∷ [] }

abbrev shown : List ℕ
shown = codes " ab12-CD34-ef "

normalize-format_pairing_code_example :
    normalize_pairing_code (format_pairing_code (codes "AB12CD34EF")) ≡ some (codes "AB12CD34EF")
normalize-format_pairing_code_example =
    normalize-format_pairing_code (codes "AB12CD34EF") refl (omega arith)

is_paired :
    (activate_pairing_code digest 200 "c" "k2" shown [] with_code).1 ≡ accepted ("loja", "k2")
unfolding activate_pairing_code get_active_tenant
is_paired = refl

single_use_example :
    let after = (activate_pairing_code digest 200 "c" "k2" shown [] with_code).0 in
    activate_pairing_code digest 300 "d" "k3" code [] after
    ≡ (after, http_error 404 "Codigo de vinculacao invalido ou expirado.")
unfolding hashes_unique normalize_pairing_code
single_use_example =
    single_use digest 200 300 "c" "k2" "d" "k3" shown [] code [] with_code ("loja", "k2")
      (omega arith) refl refl is_paired

paired_device_example :
    let created = create_pairing_code digest 100 "p" code "loja" 10 "admin" store in
    let activated =
      activate_pairing_code digest 200 "c" "k2" (format_pairing_code code) [] created.0 in
    (created.1 ≡ accepted (format_pairing_code code))
    × (activated.1 ≡ accepted ("loja", "k2"))
    × ((authenticate digest 300 "loja" "k2" activated.0).1 ≡ accepted loja)
unfolding validate_empresa_id get_active_tenant
paired_device_example =
    paired_device digest 100 200 300 "p" code "loja" 10 "admin" "c" "k2" [] store loja refl refl
      refl refl (omega arith) (omega arith)

authenticate-is_key_of_example :
    (authenticate digest 300 "loja" "k1" store).1 ≡ expected digest "loja" "k1" store
authenticate-is_key_of_example = authenticate-is_key_of digest 300 "loja" "k1" store

abbrev rotated : Tenant
rotated = record loja {
  api_key_hash = hash_api_key digest "k9";
  api_key_last_rotated_at = some 400;
  api_key_expires_at = some (400 + 86400000000);
}

rotate-authenticate_example :
    let after = (rotate_tenant_key digest 1 400 "k9" "loja" store).0 in
    ((authenticate digest 500 "loja" "k9" after).1 ≡ accepted rotated)
    × ((authenticate digest 500 "loja" "k1" after).1 ≡ http_error 401 "Credenciais invalidas.")
unfolding validate_empresa_id get_active_tenant key_expiry
rotate-authenticate_example =
    rotate-authenticate digest 1 400 500 "k9" "k1" "loja" store loja refl refl refl
