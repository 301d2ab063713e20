-- ===== src/Redis/Examples.antt =====
-- A server that holds counters.
use mathlib.Core.Option
use mcphub.Prelude.{
  ◌≡◌, refl, ap, ◌∙◌, ℕ, ◌+◌, ◌*◌, true, Option, none, some, List, [], ◌∷◌, str, eqb_iff, eqb_refl,
  Map, lookup, insert, change_at, lookup-change_at, lookup-insert_self, lookup-insert_ne, map,
  arith,
}
use mcphub.Auth.Store.{ok}
use mcphub.Redis.{Client}
use mcphub.Redis.Window.{Counter, Laws, second, live, incremented, value_of, with_deadline}
use mcphub.Redis.Limiter.{Request, local_run, redis_run, redis_run-local_run}

abbrev Counters : Type 0
Counters = Map Counter

abbrev deadline_at : ℕ → Counter → Counter
deadline_at t c = record c { deadline = some t }

abbrev server : Client Counters
server = record {
  incr = λ k now s. let c = incremented (live (lookup k s) now) in (ok c.value, insert k c s);
  expire = λ k ttl now s. change_at k (deadline_at (now + ttl)) s;
  set = λ k v ttl now s. (ok tt, s);
  set_nx = λ k v ttl now s. (ok true, s);
  get = λ k now s. ok none;
  exists = λ k now s. ok 0;
  del = λ k now s. (ok tt, s);
}

result_lem : (x : Option Counter) → (incremented x).value ≡ 1 + value_of x
result_lem none = refl
result_lem (some c) = omega arith

deadline_lem : (x : Option Counter) (t : ℕ) → Option.map (deadline_at t) x ≡ with_deadline x t
deadline_lem none t = refl
deadline_lem (some c) t = refl

laws : Laws server
laws = record {
  read = lookup;
  incr_result = λ k now s certain. ap ok (result_lem (live (lookup k s) now) ∙ omega arith);
  incr_read = λ k now s certain. lookup-insert_self k (incremented (live (lookup k s) now)) s;
  incr_others = λ k j now s ne. lookup-insert_ne k j (incremented (live (lookup k s) now)) s ne;
  expire_read = λ k ttl now s whole.
      lookup-change_at k k (deadline_at (now + ttl)) s
      ∙ rw (eqb_refl k) (deadline_lem (lookup k s) (now + ttl));
  expire_others = λ k j ttl now s ne.
      ground (arith, lookup-change_at k j (deadline_at (now + ttl)) s, eqb_iff k j);
}

abbrev requests : List Request
requests = (str "a", 1) ∷ (str "a", 2) ∷ (str "b", 2) ∷ (str "a", 3) ∷ (str "a", 2000000000) ∷ []

abbrev ten_seconds : ℕ
ten_seconds = 10 * second

redis_run-local_run_example :
    redis_run server 2 ten_seconds requests []
    ≡ map ok (local_run 2 ten_seconds requests (record { windows = [] }))
unfolding laws lookup
redis_run-local_run_example =
    redis_run-local_run server laws 2 ten_seconds requests 1 [] (omega arith) (omega arith)
      (10, omega arith, refl)
      ((
        omega arith,
        omega arith,
        (
          omega arith,
          omega arith,
          (omega arith, omega arith, (omega arith, omega arith, (omega arith, omega arith, tt))),
        ),
      ))
      (λ key. refl)
