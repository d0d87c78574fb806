-- ===== src/Agent.antt =====
-- The sales agent of a shop: agent_local/sync/sync_runner.py and checkpoint_store.py, with
-- fetch_changed_vendas of agent_local/db/mariadb_client.py (its own query) and the optional fields of
-- agent_local/db/xd_sales_mapper.py. Times are microseconds since 1970. The checkpoints file is the list
-- of its entries. What the server does with a batch, and the metadata of the source, are given; the
-- report of the status, whose failures are swallowed, is left out.
pub mod Order
pub mod Catchup
pub mod Server
mod Tests
use Prim.Native.Char.{code}
use Prim.Native.String
use integrado_web_xd.Prelude.{
  ℕ, max, String, Bool, true, false, not, ◌&&◌, ◌||◌, Option, none, some, List, [], ◌∷◌, ◌++◌, map,
  take, keep, any, first_where, update_first, sort_by, ltb, leb, nat_eq, if◌then◌else◌, ◌==◌,
}
use integrado_web_xd.Http.{Reply, accepted, http_error}
use integrado_web_xd.Access.Pairing.{is_space}
use integrado_web_xd.Sales.{SaleRecord}
use integrado_web_xd.Ingestion.{SyncRequest, SyncSourceMetadata, SyncResponse}

-- A row of the table `vendas` of the shop, in the six columns that the query selects.
pub record SourceVenda : Type 0 where
  pub uuid : String
  pub empresa_id : String
  pub produto : String
  pub valor : String
  pub day : ℕ
  pub data_atualizacao : ℕ

-- The mapping of such a row: `get` finds none of the optional fields in it.
abbrev pub selected : SourceVenda → SaleRecord
selected v = record {
  uuid = v.uuid;
  branch_code = none;
  terminal_code = none;
  tipo_venda = none;
  forma_pagamento = none;
  bandeira_cartao = none;
  familia_produto = none;
  categoria_produto = none;
  codigo_produto_local = none;
  unidade = none;
  operador = none;
  cliente = none;
  status_venda = none;
  cancelada = none;
  produto = v.produto;
  quantidade = none;
  valor_unitario = none;
  valor_bruto = none;
  desconto = none;
  acrescimo = none;
  valor_liquido = none;
  valor = v.valor;
  day = v.day;
  data_atualizacao = v.data_atualizacao;
}

abbrev lstrip : String → String
lstrip String.[] = ""
lstrip (String.◌∷◌ c s) = let rest = lstrip s in if is_space (code c) then rest else String.◌∷◌ c s

abbrev rstrip : String → String
rstrip String.[] = ""
rstrip (String.◌∷◌ c s) =
    let rest = rstrip s in if rest == "" && is_space (code c) then "" else String.◌∷◌ c rest

-- A text that is blank is left out, and the others lose the space around them.
unfoldable pub clean : Option String → Option String
clean none = none
clean (some s) = let stripped = rstrip (lstrip s) in if stripped == "" then none else some stripped

-- The loop over OPTIONAL_CANONICAL_FIELDS; `cancelada` is a Boolean.
unfoldable pub clean_fields : SaleRecord → SaleRecord
unfolding clean
clean_fields r = record r {
  branch_code = clean r.branch_code;
  terminal_code = clean r.terminal_code;
  tipo_venda = clean r.tipo_venda;
  forma_pagamento = clean r.forma_pagamento;
  bandeira_cartao = clean r.bandeira_cartao;
  familia_produto = clean r.familia_produto;
  categoria_produto = clean r.categoria_produto;
  codigo_produto_local = clean r.codigo_produto_local;
  unidade = clean r.unidade;
  operador = clean r.operador;
  cliente = clean r.cliente;
  status_venda = clean r.status_venda;
  quantidade = clean r.quantidade;
  valor_unitario = clean r.valor_unitario;
  valor_bruto = clean r.valor_bruto;
  desconto = clean r.desconto;
  acrescimo = clean r.acrescimo;
  valor_liquido = clean r.valor_liquido;
}

unfoldable pub canonicalize_sales_row : SaleRecord → SaleRecord
unfolding clean_fields
canonicalize_sales_row = clean_fields

unfoldable pub build_payload_record : SaleRecord → SaleRecord
unfolding clean_fields
build_payload_record = clean_fields

abbrev pub is_changed : String → ℕ → SourceVenda → Bool
is_changed empresa_id since v = v.empresa_id == empresa_id && ltb since v.data_atualizacao

abbrev pub updated : SourceVenda → ℕ
updated v = v.data_atualizacao

-- The rows of the query before its LIMIT; the order of equal times is that of the table.
abbrev pub changed : String → ℕ → List SourceVenda → List SourceVenda
changed empresa_id since vendas = sort_by updated (keep (is_changed empresa_id since) vendas)

unfoldable pub fetch_changed_vendas : String → ℕ → ℕ → List SourceVenda → List SaleRecord
unfolding canonicalize_sales_row
fetch_changed_vendas empresa_id since limit vendas =
    map (λ v. canonicalize_sales_row (selected v)) (take limit (changed empresa_id since vendas))

abbrev pub is_key : String → String × ℕ → Bool
is_key key e = e.0 == key

-- `get`; a key that is missing stands for 1970.
unfoldable pub get : String → List (String × ℕ) → ℕ
get key checkpoints = elim (first_where (is_key key) checkpoints) [ none ↦ 0 | some e ↦ e.1 ]

-- `set`
unfoldable pub put : String → ℕ → List (String × ℕ) → List (String × ℕ)
put key value [] = (key, value) ∷ []
put key value (e ∷ rest) =
    let more = put key value rest in if is_key key e then (key, value) ∷ rest else e ∷ more

-- `reset`; without a value, to 1970.
unfoldable pub reset : String → Option ℕ → List (String × ℕ) → List (String × ℕ)
unfolding put
reset key none checkpoints = put key 0 checkpoints
reset key (some value) checkpoints = put key value checkpoints

abbrev pub checkpoint_key : String → String
checkpoint_key empresa_id = String.◌++◌ empresa_id ":vendas"

-- `max(... for record in records)`
abbrev pub max_update : List SaleRecord → ℕ
max_update [] = 0
max_update (r ∷ rs) = max r.data_atualizacao (max_update rs)

pub data Outcome : Type 0 where
  no_records : Outcome
  synced : (response : SyncResponse) → Outcome
  raised : (status_code : ℕ) (detail : String) → Outcome

-- The server under a batch: a state, and its answer.
module _ {W : Type 0} (send_sync_batch : SyncRequest → W → W × Reply SyncResponse) where
  unfoldable pub finish :
      String
      → List SaleRecord
      → List (String × ℕ)
      → W × Reply SyncResponse
      → (List (String × ℕ) × W) × Outcome
  unfolding put
  finish empresa_id records checkpoints (w, accepted response) =
      ((put (checkpoint_key empresa_id) (max_update records) checkpoints, w), synced response)
  finish empresa_id records checkpoints (w, http_error code detail) =
      ((checkpoints, w), raised code detail)

  unfoldable pub send_records :
      String
      → Option SyncSourceMetadata
      → List SaleRecord
      → List (String × ℕ)
      → W
      → (List (String × ℕ) × W) × Outcome
  unfolding build_payload_record finish
  send_records empresa_id metadata [] checkpoints w = ((checkpoints, w), no_records)
  send_records empresa_id metadata (r ∷ rs) checkpoints w = finish empresa_id (r ∷ rs) checkpoints (
      send_sync_batch
        (record {
          empresa_id = empresa_id;
          source_metadata = metadata;
          records = map build_payload_record (r ∷ rs);
        })
        w)

  unfoldable pub run_once :
      String
      → Option SyncSourceMetadata
      → ℕ
      → List SourceVenda
      → List (String × ℕ)
      → W
      → (List (String × ℕ) × W) × Outcome
  unfolding get fetch_changed_vendas send_records
  run_once empresa_id metadata batch_size vendas checkpoints w =
      send_records empresa_id metadata
        (fetch_changed_vendas empresa_id (get (checkpoint_key empresa_id) checkpoints) batch_size
          vendas)
        checkpoints w
