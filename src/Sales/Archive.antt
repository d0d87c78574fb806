-- ===== src/Sales/Archive.antt =====
-- The history of sales: VendaHistorico of backend/models/venda.py, and retain_recent_data of
-- backend/repositories/venda_repository.py.
use integrado_web_xd.Prelude.{
  ℕ, String, Bool, not, Option, List, ◌++◌, map, leb, ltb, if◌then◌else◌, ◌==◌, keep, length,
}
use integrado_web_xd.Sales.{Venda}

-- The model VendaHistorico: it has no `created_at` and no `updated_at`.
pub record Archived : Type 0 where
  pub uuid : String
  pub empresa_id : String
  pub branch_code : Option String
  pub terminal_code : Option String
  pub tipo_venda : Option String
  pub forma_pagamento : Option String
  pub bandeira_cartao : Option String
  pub familia_produto : Option String
  pub categoria_produto : Option String
  pub codigo_produto_local : Option String
  pub unidade : Option String
  pub operador : Option String
  pub cliente : Option String
  pub status_venda : Option String
  pub cancelada : Bool
  pub produto : String
  pub quantidade : String
  pub valor_unitario : Option String
  pub valor_bruto : Option String
  pub desconto : String
  pub acrescimo : String
  pub valor_liquido : Option String
  pub valor : String
  pub day : ℕ
  pub data_atualizacao : ℕ
  pub arquivado_em : ℕ

-- The two tables of `retain_recent_data`.
pub record Sales : Type 0 where
  pub vendas : List Venda
  pub historico : List Archived

abbrev pub is_old : ℕ → Venda → Bool
is_old cutoff v = ltb v.day cutoff

-- The columns of `INSERT ... FROM SELECT`.
abbrev pub archived : ℕ → Venda → Archived
archived now v = record {
  uuid = v.uuid;
  empresa_id = v.empresa_id;
  branch_code = v.branch_code;
  terminal_code = v.terminal_code;
  tipo_venda = v.tipo_venda;
  forma_pagamento = v.forma_pagamento;
  bandeira_cartao = v.bandeira_cartao;
  familia_produto = v.familia_produto;
  categoria_produto = v.categoria_produto;
  codigo_produto_local = v.codigo_produto_local;
  unidade = v.unidade;
  operador = v.operador;
  cliente = v.cliente;
  status_venda = v.status_venda;
  cancelada = v.cancelada;
  produto = v.produto;
  quantidade = v.quantidade;
  valor_unitario = v.valor_unitario;
  valor_bruto = v.valor_bruto;
  desconto = v.desconto;
  acrescimo = v.acrescimo;
  valor_liquido = v.valor_liquido;
  valor = v.valor;
  day = v.day;
  data_atualizacao = v.data_atualizacao;
  arquivado_em = now;
}

-- `retain_recent_data`: the tables after it, and the number of rows that it processed.
unfoldable pub retain_recent_data : ℕ → ℕ → String → Sales → Sales × ℕ
retain_recent_data now cutoff mode s =
    let old = keep (is_old cutoff) s.vendas in
    let recent = keep (λ v. not (is_old cutoff v)) s.vendas in
    let history : List Archived =
      if mode == "archive" then s.historico ++ map (archived now) old else s.historico in
    if leb (length old) 0
    then (s, 0)
    else (record { vendas = recent; historico = history }, length old)
