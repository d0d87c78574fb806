-- ===== src/Sales.antt =====
-- The table of sales: backend/models/venda.py and the methods of
-- backend/repositories/venda_repository.py that write it.
-- A date is a day number and a `datetime` a number of microseconds; a `Decimal`, which these
-- methods only copy, is its text. The table is the list of its rows; the number `id` of a row is
-- left out.
pub mod Dedup
pub mod Write
pub mod Counts
pub mod Upsert
pub mod Chunks
pub mod Archive
pub mod Retention
mod Tests
use integrado_web_xd.Prelude.{
  ℕ, zero, suc, ◌+◌, String, Bool, true, false, not, ◌&&◌, Option, none, some, List, [], ◌∷◌, ◌++◌,
  map, max, leb, ltb, if◌then◌else◌, ◌==◌, keep, count, length, take, drop, any, or_else,
}

-- A record as the connectors and the request hand it over. `none` is a missing key or `None`; of
-- the three columns with a default, a missing key.
pub record SaleRecord : Type 0 where
  pub uuid : String
  pub branch_code : Option String
  pub terminal_code : Option String
  pub tipo_venda : Option String
  pub forma_pagamento : Option String
  pub bandeira_cartao : Option String
  pub familia_produto : Option String
  pub categoria_produto : Option String
  pub codigo_produto_local : Option String
  pub unidade : Option String
  pub operador : Option String
  pub cliente : Option String
  pub status_venda : Option String
  pub cancelada : Option Bool
  pub produto : String
  pub quantidade : Option String
  pub valor_unitario : Option String
  pub valor_bruto : Option String
  pub desconto : Option String
  pub acrescimo : Option String
  pub valor_liquido : Option String
  pub valor : String
  pub day : ℕ
  pub data_atualizacao : ℕ

pub record Venda : Type 0 where
  pub uuid : String
  pub empresa_id : String
  pub branch_code : Option String
  pub terminal_code : Option String
  pub tipo_venda : Option String
  pub forma_pagamento : Option String
  pub bandeira_cartao : Option String
  pub familia_produto : Option String
  pub categoria_produto : Option String
  pub codigo_produto_local : Option String
  pub unidade : Option String
  pub operador : Option String
  pub cliente : Option String
  pub status_venda : Option String
  pub cancelada : Bool
  pub produto : String
  pub quantidade : String
  pub valor_unitario : Option String
  pub valor_bruto : Option String
  pub desconto : String
  pub acrescimo : String
  pub valor_liquido : Option String
  pub valor : String
  pub day : ℕ
  pub data_atualizacao : ℕ
  pub created_at : ℕ
  pub updated_at : ℕ

-- The entry of `values` for a record; `created_at` is its default.
unfoldable pub row_of : String → ℕ → SaleRecord → Venda
row_of empresa now item = record {
  uuid = item.uuid;
  empresa_id = empresa;
  branch_code = item.branch_code;
  terminal_code = item.terminal_code;
  tipo_venda = item.tipo_venda;
  forma_pagamento = item.forma_pagamento;
  bandeira_cartao = item.bandeira_cartao;
  familia_produto = item.familia_produto;
  categoria_produto = item.categoria_produto;
  codigo_produto_local = item.codigo_produto_local;
  unidade = item.unidade;
  operador = item.operador;
  cliente = item.cliente;
  status_venda = item.status_venda;
  cancelada = or_else item.cancelada false;
  produto = item.produto;
  quantidade = or_else item.quantidade "1";
  valor_unitario = item.valor_unitario;
  valor_bruto = item.valor_bruto;
  desconto = or_else item.desconto "0";
  acrescimo = or_else item.acrescimo "0";
  valor_liquido = item.valor_liquido;
  valor = item.valor;
  day = item.day;
  data_atualizacao = item.data_atualizacao;
  created_at = now;
  updated_at = now;
}

-- Row `v` has the key `(empresa, uuid)`.
abbrev pub has_key : String → String → Venda → Bool
has_key empresa uuid v = v.empresa_id == empresa && v.uuid == uuid

-- INSERT of one entry, ON CONFLICT (empresa_id, uuid) DO UPDATE: every column but `created_at`.
unfoldable pub upsert : List Venda → Venda → List Venda
upsert [] new = new ∷ []
upsert (v ∷ table) new =
    let rest = upsert table new in
    if has_key new.empresa_id new.uuid v
    then record new { created_at = v.created_at } ∷ table
    else v ∷ rest

-- The statements of the last branch: DELETE, then INSERT.
unfoldable pub replace : List Venda → Venda → List Venda
replace table new = keep (λ v. not (has_key new.empresa_id new.uuid v)) table ++ new ∷ []

pub data Dialect : Type 0 where
  postgresql sqlite default : Dialect

-- The statements for the entries of a chunk, one entry after the other.
unfoldable pub write : Dialect → List Venda → List Venda → List Venda
unfolding upsert replace
write dialect table [] = table
write default table (new ∷ values) = write default (replace table new) values
write postgresql table (new ∷ values) = write postgresql (upsert table new) values
write sqlite table (new ∷ values) = write sqlite (upsert table new) values

-- `grouped[uuid] = record` under the test on `previous`, in a dict in order of insertion.
unfoldable pub put_latest : SaleRecord → List SaleRecord → List SaleRecord
put_latest r [] = r ∷ []
put_latest r (previous ∷ grouped) =
    let rest = put_latest r grouped in
    if previous.uuid == r.uuid
    then (if leb previous.data_atualizacao r.data_atualizacao then r else previous) ∷ grouped
    else previous ∷ rest

-- The loop of `_deduplicate_by_uuid`.
unfoldable pub dedup_from : List SaleRecord → List SaleRecord → List SaleRecord
unfolding put_latest
dedup_from grouped [] = grouped
dedup_from grouped (r ∷ records) = dedup_from (put_latest r grouped) records

unfoldable pub deduplicate_by_uuid : List SaleRecord → List SaleRecord
unfolding dedup_from
deduplicate_by_uuid records = dedup_from [] records

-- `_chunked`: one slice for each index in steps of `size`; as many rounds as there are records
-- are enough.
unfoldable pub chunked_from : ℕ → ℕ → List SaleRecord → List (List SaleRecord)
chunked_from zero size records = []
chunked_from (suc n) size [] = []
chunked_from (suc n) size (r ∷ records) =
    take size (r ∷ records) ∷ chunked_from n size (drop size (r ∷ records))

unfoldable pub chunked : ℕ → List SaleRecord → List (List SaleRecord)
unfolding chunked_from
chunked size records = chunked_from (length records) size records

abbrev pub is_stored : String → List Venda → SaleRecord → Bool
is_stored empresa table r = any (has_key empresa r.uuid) table

-- The loop over the chunks: the table, `inserted_count` and `updated_count`. A chunk repeats no
-- uuid, so the sizes of the two sets are counts.
unfoldable pub upsert_chunks :
    Dialect → String → ℕ → List Venda → ℕ → ℕ → List (List SaleRecord) → List Venda × ℕ × ℕ
unfolding write row_of
upsert_chunks dialect empresa now table inserted updated [] = (table, inserted, updated)
upsert_chunks dialect empresa now table inserted updated (chunk ∷ chunks) =
    upsert_chunks dialect empresa now (write dialect table (map (row_of empresa now) chunk))
      (inserted + count (λ r. not (is_stored empresa table r)) chunk)
      (updated + count (is_stored empresa table) chunk) chunks

unfoldable pub bulk_upsert :
    Dialect → String → ℕ → List SaleRecord → ℕ → List Venda → List Venda × ℕ × ℕ
unfolding deduplicate_by_uuid chunked upsert_chunks
bulk_upsert dialect empresa now records chunk_size table =
    upsert_chunks dialect empresa now table 0 0
      (chunked (max 1 chunk_size) (deduplicate_by_uuid records))
