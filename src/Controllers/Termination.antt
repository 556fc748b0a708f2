-- ===== src/Controllers/Termination.antt =====
-- The loops of a download come to an end.
mod Loops
use coriolis_logger.Common.{
  ℕ, zero, suc, ◌<◌, ◌≤◌, ◌>>=◌, wrap, ◌≡◌, ◌≢◌, ◌⊎◌, refl, sym, ap, ◌∙◌, inl, inr, arith, String,
  true, false, Bool-cases, Option, Option-cases, some, List, [], ◌∷◌, length, ◌⧺◌, Error, is_eof,
  Result, Result-cases, ok, err, panic, subst,
}
use coriolis_logger.Decimal.{parse_bool}
use coriolis_logger.Params.{QueryParams}
use coriolis_logger.Influxdb.Client.{Chunk, response, failed}
use coriolis_logger.Influxdb.Client
use coriolis_logger.Influxdb.{Store, flush}
use coriolis_logger.Influxdb.Query.{prepare_query}
use coriolis_logger.Influxdb.Reader
use coriolis_logger.Influxdb.Reader.{Reader, next_text, send_query, result_reader}
use coriolis_logger.Http.{Request, get, ResponseWriter, Connection, write}
use coriolis_logger.Controllers.{
  can_access, Library, query_params, check_inputs, download_log_handler,
}
use coriolis_logger.Controllers.Download.{
  Disk, fill, stream, first_part, attachment, download_as_file, download_as_chunks,
}
use coriolis_logger.Controllers.LogDownload.{read_store, first_read}
use Loops.{
  Ends, IsNoEnd, wrap-IsNoEnd, bind-IsNoEnd, download_as_file-Returns, download_as_chunks-Returns,
}

module _ (db : Client.Library) where
  -- The reader once its query was answered.
  abbrev asked : QueryParams → List Chunk → Store db → Reader × Store db
  asked params chunks s = (record { params = params; result = some chunks }, s)

  asked-Ends :
      (fuel : ℕ) (params : QueryParams) (chunks : List Chunk) (s : Store db)
      → length chunks < fuel
      → Ends (read_store db) fuel (asked params chunks s)
  unfolding Reader.read_next next_text
  asked-Ends zero params chunks s h = absurd (omega arith)
  asked-Ends (suc fuel) params [] s h = λ text e. cc
  asked-Ends (suc fuel) params (failed x ∷ chunks) s h = λ text e. ground arith
  asked-Ends (suc fuel) params (response r ∷ chunks) s h =
      λ text e. asked-Ends fuel params chunks s (omega arith)

  next_text-length : (chunks : List Chunk) → length (next_text chunks).0 ≤ length chunks
  unfolding next_text
  next_text-length [] = omega arith
  next_text-length (failed x ∷ chunks) = omega arith
  next_text-length (response r ∷ chunks) = omega arith

  send_query-IsNoEnd : (params : QueryParams) (s : Store db) → IsNoEnd (send_query db params s)
  unfolding send_query
  send_query-IsNoEnd params s =
      bind-IsNoEnd (wrap "preparing query" (prepare_query params)) _
        (wrap-IsNoEnd _ (prepare_query params))
        (λ q. wrap-IsNoEnd _ (db.query_as_chunk s.server q s.cfg.database 20000))

  -- The first call of a reader fails, or is that of a reader whose query was answered.
  abbrev Fails : Result String → Type 0
  Fails text = ((e : Error) × (text ≡ err e) × (is_eof e ≡ false)) ⊎ (text ≡ panic)

  first_panic :
      (params : QueryParams) (s : Store db)
      → (flush db s).1 ≡ panic
      → (read_store db (result_reader params, s)).1 ≡ panic
  unfolding Reader.read_next result_reader
  first_panic params s crashed = rw (crashed, read_store, Reader.read_next) refl

  first_unanswered :
      (params : QueryParams) (s : Store db) (r : Result (List Chunk))
      → (flush db s).1 ≢ panic
      → send_query db params (flush db s).0 ≡ r
      → IsNoEnd r
      → ¬ ((chunks : List Chunk) × (r ≡ ok chunks))
      → Fails (read_store db (result_reader params, s)).1
  unfolding Reader.read_next result_reader
  first_unanswered params s (ok chunks) no_panic e no_end other = absurd (other (chunks, refl))
  first_unanswered params s (err x) no_panic e no_end other = elim (Result-cases (flush db s).1) [
    | inl (done, flushed) ↦ inl (x, rw (flushed, e, read_store, Reader.read_next) refl, no_end)
    | inr (inl (y, unflushed)) ↦
        inl (x, rw (unflushed, e, read_store, Reader.read_next) refl, no_end)
    | inr (inr crashed) ↦ absurd (no_panic crashed)
  ]
  first_unanswered params s panic no_panic e no_end other = elim (Result-cases (flush db s).1) [
    | inl (done, flushed) ↦ inr (rw (flushed, e, read_store, Reader.read_next) refl)
    | inr (inl (y, unflushed)) ↦ inr (rw (unflushed, e, read_store, Reader.read_next) refl)
    | inr (inr crashed) ↦ absurd (no_panic crashed)
  ]

  -- The first call of a reader, if the answer to its query has fewer chunks than the fuel.
  first_call :
      (fuel : ℕ) (params : QueryParams) (s : Store db)
      → ((chunks : List Chunk)
          → send_query db params (flush db s).0 ≡ ok chunks
          → length chunks < fuel)
      → Fails (read_store db (result_reader params, s)).1
        ⊎ ((chunks : List Chunk) × (length chunks < fuel)
            × (read_store db (result_reader params, s)
                ≡ read_store db (asked params chunks (flush db s).0)))
  first_call fuel params s enough = elim (Result-cases (flush db s).1) [
    | inr (inr crashed) ↦ inl (inr (first_panic params s crashed))
    | inl (done, flushed) ↦ after_flush (λ e. cc)
    | inr (inl (x, unflushed)) ↦ after_flush (λ e. cc)
  ]
    where
      after_flush :
          (flush db s).1 ≢ panic
          → Fails (read_store db (result_reader params, s)).1
            ⊎ ((chunks : List Chunk) × (length chunks < fuel)
                × (read_store db (result_reader params, s)
                    ≡ read_store db (asked params chunks (flush db s).0)))
      after_flush no_panic = elim (Result-cases (send_query db params (flush db s).0)) [
        | inl (chunks, e) ↦ inr (chunks, enough chunks e, first_read db params s no_panic e)
        | inr (inl (x, e)) ↦ inl (
            first_unanswered params s (err x) no_panic e
              (subst IsNoEnd e (send_query-IsNoEnd params (flush db s).0)) (λ (chunks, h). cc))
        | inr (inr e) ↦ inl (first_unanswered params s panic no_panic e tt (λ (chunks, h). cc))
      ]

  Fails-no_text :
      (r : Reader × Store db) (s : String)
      → Fails (read_store db r).1
      → ¬ ((read_store db r).1 ≡ ok s)
  Fails-no_text r s (inl (e, h, x)) k = cc
  Fails-no_text r s (inr h) k = cc

  Fails-no_end :
      (r : Reader × Store db) (e : Error)
      → Fails (read_store db r).1
      → (read_store db r).1 ≡ err e
      → ¬ (is_eof e ≡ true)
  Fails-no_end r e (inl (x, h, broken)) k ended =
      let no_end : is_eof e ≡ false = subst IsNoEnd (sym h ∙ k) broken in cc
  Fails-no_end r e (inr h) k ended = cc

  asked-next :
      (params : QueryParams) (chunks : List Chunk) (s : Store db)
      → (read_store db (asked params chunks s)).0 ≡ asked params (next_text chunks).0 s
  unfolding Reader.read_next
  asked-next params chunks s = refl

  start-Ends :
      (fuel : ℕ) (r r' : Reader × Store db)
      → read_store db r ≡ read_store db r'
      → Ends (read_store db) (suc fuel) r'
      → Ends (read_store db) (suc fuel) r
  start-Ends fuel r r' same ends s e =
      subst (λ q. Ends (read_store db) fuel q) (sym (ap (λ p. p.0) same))
        (ends s (sym (ap (λ p. p.1) same) ∙ e))

  -- Behind the first call.
  next-Ends :
      (fuel : ℕ) (r : Reader × Store db) (params : QueryParams) (chunks : List Chunk) (s : Store db)
      → read_store db r ≡ read_store db (asked params chunks s)
      → length chunks < fuel
      → Ends (read_store db) fuel (read_store db r).0
  next-Ends fuel r params chunks s same within =
      let shorter = next_text-length chunks in
      subst (λ q. Ends (read_store db) fuel q)
        (sym (ap (λ p. p.0) same ∙ asked-next params chunks s))
        (asked-Ends fuel params (next_text chunks).0 s (omega arith))

  -- If the query of a download, sent after the flush, is answered with fewer chunks than a
  -- positive fuel or not at all, the handler comes to an end, whatever the request, the disk, the
  -- connection and the chunks.
  pub download_log_handler-Returns :
      (lib : Library) (fuel : ℕ) (req : Request) (w : ResponseWriter) (s : Store db)
      → ((chunks : List Chunk)
          → send_query db (query_params req) (flush db s).0 ≡ ok chunks
          → length chunks < fuel)
      → 0 < fuel
      → (r : Result ResponseWriter) × (download_log_handler lib
            (read_store db)
            (λ params. (result_reader params, s))
            fuel
            req
            w
          ≡ some r)
  unfolding download_log_handler
  download_log_handler-Returns lib zero req w s enough fueled = absurd (omega arith)
  download_log_handler-Returns lib (suc fuel) req w s enough fueled =
      let params = query_params req in
      let start : Reader × Store db = (result_reader params, s) in
      let name = get "log" req.vars in
      let checked = check_inputs lib req w in
      let call = first_call (suc fuel) params s enough in
      elim (Bool-cases (can_access req)) [
        | inr stranger ↦ rw (stranger, download_log_handler) (_, refl)
        | inl admin ↦ elim (Bool-cases (parse_bool (get "disable_chunked" req.query))) [
          | inl whole ↦
              rw (admin, whole, download_log_handler)
                (download_as_file-Returns (read_store db) lib.connection lib.disk (suc fuel) start
                  checked name
                  (elim call [
                    | inl fails ↦ λ text e. absurd (Fails-no_text start text fails e)
                    | inr (chunks, within, same) ↦
                        start-Ends fuel start _ same
                          (asked-Ends (suc fuel) params chunks (flush db s).0 within)
                  ]))
          | inr in_parts ↦
              rw (admin, in_parts, download_log_handler)
                (download_as_chunks-Returns (read_store db) lib.connection (suc fuel) start checked
                  name
                  (elim call [
                    | inl fails ↦ λ text e. absurd (Fails-no_text start text fails e)
                    | inr (chunks, within, same) ↦
                        λ text e. next-Ends (suc fuel) start params chunks _ same within
                  ])
                  (elim call [
                    | inl fails ↦ λ x e ended. absurd (Fails-no_end start x fails e ended)
                    | inr (chunks, within, same) ↦
                        λ x e ended. next-Ends (suc fuel) start params chunks _ same within
                  ]))
        ]
      ]
