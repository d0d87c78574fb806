-- ===== src/Sales/Retention.antt =====
-- The retention of sales: backend/services/retention_service.py over `retain_recent_data`.
use integrado_web_xd.Prelude.{
  ℕ, ◌+◌, ◌≤◌, ◌≡◌, refl, String, Bool, true, not, List, [], ◌∷◌, map, arith, ◌==◌, keep, count,
  length, count-append, count-eq-length-keep,
}
use integrado_web_xd.Sales.{Venda}
use integrado_web_xd.Sales.Archive.{Sales, Archived, is_old, archived, retain_recent_data}

-- The content of a sale, in the columns that both tables have.
abbrev pub content : Venda → Venda
content v = record v { created_at = 0; updated_at = 0 }

-- The content of a row of the history.
abbrev pub content_archived : Archived → Venda
content_archived a = record {
  uuid = a.uuid;
  empresa_id = a.empresa_id;
  branch_code = a.branch_code;
  terminal_code = a.terminal_code;
  tipo_venda = a.tipo_venda;
  forma_pagamento = a.forma_pagamento;
  bandeira_cartao = a.bandeira_cartao;
  familia_produto = a.familia_produto;
  categoria_produto = a.categoria_produto;
  codigo_produto_local = a.codigo_produto_local;
  unidade = a.unidade;
  operador = a.operador;
  cliente = a.cliente;
  status_venda = a.status_venda;
  cancelada = a.cancelada;
  produto = a.produto;
  quantidade = a.quantidade;
  valor_unitario = a.valor_unitario;
  valor_bruto = a.valor_bruto;
  desconto = a.desconto;
  acrescimo = a.acrescimo;
  valor_liquido = a.valor_liquido;
  valor = a.valor;
  day = a.day;
  data_atualizacao = a.data_atualizacao;
  created_at = 0;
  updated_at = 0;
}

-- What stands in either table, of the sales whose content passes a test.
abbrev pub kept_count : (Venda → Bool) → Sales → ℕ
kept_count p s =
    count (λ v. p (content v)) s.vendas + count (λ a. p (content_archived a)) s.historico

count-split :
    (p q : Venda → Bool) (table : List Venda)
    → count p (keep q table) + count p (keep (λ v. not (q v)) table) ≡ count p table
count-split p q [] = omega arith
count-split p q (v ∷ table) = ground (arith, count-split p q table)

count-archived :
    (p : Venda → Bool) (now : ℕ) (table : List Venda)
    → count (λ (a : Archived). p (content_archived a)) (map (archived now) table)
      ≡ count (λ v. p (content v)) table
count-archived p now [] = refl
count-archived p now (v ∷ table) = ground (arith, count-archived p now table)

keep-none :
    (q : Venda → Bool) (table : List Venda)
    → length (keep q table) ≤ 0
    → keep (λ v. not (q v)) table ≡ table
keep-none q [] h = refl
keep-none q (v ∷ table) h = ground (arith, keep-none q table)

module _ (now cutoff : ℕ) (mode : String) (s : Sales) where
  -- After a run the table of sales holds, in their order, exactly the rows that are not before the
  -- cutoff, whatever the mode; the result is the number of the others.
  vendas-retain_recent_data :
      ((retain_recent_data now cutoff mode s).0.vendas ≡ keep (λ v. not (is_old cutoff v)) s.vendas)
      × ((retain_recent_data now cutoff mode s).1 ≡ count (is_old cutoff) s.vendas)
  unfolding retain_recent_data
  vendas-retain_recent_data =
      ground
        (arith, keep-none (is_old cutoff) s.vendas, count-eq-length-keep (is_old cutoff) s.vendas)

  -- In the mode `archive` no sale is lost, doubled or changed in a column that both tables have:
  -- whatever the test on these columns, the two tables together hold as many sales that pass it as
  -- before.
  pub retain_recent_data-archives :
      (p : Venda → Bool)
      → (mode == "archive") ≡ true
      → kept_count p (retain_recent_data now cutoff mode s).0 ≡ kept_count p s
  unfolding retain_recent_data
  retain_recent_data-archives p h =
      let old = keep (is_old cutoff) s.vendas in
      rw h (
        ground (
          arith,
          count-split (λ v. p (content v)) (is_old cutoff) s.vendas,
          count-archived p now old,
          count-append (λ (a : Archived). p (content_archived a)) s.historico
              (map (archived now) old),
        ))
