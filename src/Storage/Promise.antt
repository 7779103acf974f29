-- ===== src/Storage/Promise.antt =====
-- What `WritePoints` promises its caller, and that both implementations keep it.
use api_observability_platfo.Base.{
  ℕ, zero, suc, ◌+◌, ◌≡◌, ◌≢◌, ◌↔◌, refl, Option, none, some, List, [], ◌∷◌, arith, length,
  length-snoc,
}
use api_observability_platfo.Domain.{Error, MetricPoint, WriteResult}
use api_observability_platfo.Contract.{Context}
use api_observability_platfo.Storage.Influx
use api_observability_platfo.Storage.Influx.{Client, count_write, write_loop, write_error}
use api_observability_platfo.Storage.Noop

-- Every point is either counted as written or has its error; and an error is returned exactly if
-- there were points and none of them was written.
pub record IsHonest (points : List MetricPoint) (answer : WriteResult × Option Error) : Type 0 where
  pub complete : answer.0.written + length answer.0.errors ≡ length points
  pub error_iff : (answer.1 ≢ none) ↔ ((points ≢ []) × (answer.0.written ≡ 0))

nil_of_length : (points : List MetricPoint) → length points ≡ 0 → points ≡ []
nil_of_length [] h = refl
nil_of_length (p ∷ ps) h = absurd (omega arith)

module _ {W : Type 0} where
  -- The same of the storage without effect.
  pub noop-IsHonest :
      (ctx : Context) (points : List MetricPoint) (w : W)
      → IsHonest points (Noop.storage.write_points ctx points w).0
  unfolding Noop.storage
  noop-IsHonest ctx points w = record {
    complete = omega arith;
    error_iff = (λ e. absurd (e refl), λ h. absurd (h.0 (nil_of_length points h.1)));
  }

  module _ (c : Client W) where
    count_write-size :
        (err : Option Error) (res : WriteResult)
        → (count_write c err res).written + length (count_write c err res).errors
          ≡ suc (res.written + length res.errors)
    unfolding count_write
    count_write-size (some e) res = omega (arith, length-snoc res.errors e)
    count_write-size none res = omega arith

    write_loop_complete :
        (ctx : Context) (points : List MetricPoint) (res : WriteResult) (w : W)
        → (write_loop c ctx points res w).0.written
            + length (write_loop c ctx points res w).0.errors
          ≡ res.written + length res.errors + length points
    unfolding write_loop
    write_loop_complete ctx [] res w = omega arith
    write_loop_complete ctx (p ∷ ps) res w =
        let (err, w') = c.write_point ctx p w in
        omega
          (arith, write_loop_complete ctx ps (count_write c err res) w', count_write-size err res)

    write_error_iff :
        (points : List MetricPoint) (es : List Error) (n : ℕ)
        → n + length es ≡ length points
        → (write_error c es n ≢ none) ↔ ((points ≢ []) × (n ≡ 0))
    unfolding write_error
    write_error_iff [] [] n h = (λ e. absurd (e refl), λ q. absurd (q.0 refl))
    write_error_iff (p ∷ ps) [] n h = (λ e. absurd (e refl), λ q. absurd (omega (arith, q.1)))
    write_error_iff [] (e ∷ es) n h = absurd (omega arith)
    write_error_iff (p ∷ ps) (e ∷ es) zero h = (λ _. (λ q. cc, refl), λ _ q. cc)
    write_error_iff (p ∷ ps) (e ∷ es) (suc n) h =
        (λ q. absurd (q refl), λ q. absurd (omega (arith, q.1)))

    pub influx-IsHonest :
        (ctx : Context) (points : List MetricPoint) (w : W)
        → IsHonest points ((Influx.storage c).write_points ctx points w).0
    unfolding Influx.storage
    influx-IsHonest ctx points w =
        let res = (write_loop c ctx points (record { written = 0; errors = [] }) w).0 in
        let all = write_loop_complete ctx points (record { written = 0; errors = [] }) w in
        record {
          complete = omega (arith, all);
          error_iff = write_error_iff points res.errors res.written (omega (arith, all));
        }
