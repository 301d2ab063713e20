-- ===== src/Mux/Examples.antt =====
-- A Send whose context is done while two answers to it are on the way.
use mcphub.Prelude.{ℕ, ◌≡◌, some, refl, false, str, lookup, insert, eqb, arith}
use mcphub.Protocol.{Frame, zero_frame}
use mcphub.Mux.{
  Mux, new, send, give_up, read, deposit, sends, gives_up, reads, deposits, Reach, here, after,
}
use mcphub.Mux.Stuck.{IsStuck, reach-IsStuck}

abbrev answer : Frame
answer = record (zero_frame (str "response")) { stream_id = str "s" }

abbrev m1 : Mux
m1 = send (str "s") new

abbrev m2 : Mux
m2 = read answer false m1

abbrev m3 : Mux
m3 = deposit 0 answer m2

abbrev m4 : Mux
m4 = read answer false m3

abbrev m5 : Mux
m5 = give_up 0 m4

abbrev m6 : Mux
m6 = send (str "t") m5

up_to_m3 : Reach new m3
unfolding new send read deposit lookup insert eqb
up_to_m3 = after new m1 m3 (sends (str "s") new) (
    after m1 m2 m3 (reads answer false m1 refl)
      (after m2 m3 m3 (deposits 0 answer m2 refl refl) (here m3)))

-- The reader gets stuck.
up_to_m5 : Reach new m5
unfolding new send read deposit give_up lookup insert eqb
up_to_m5 = after new m1 m5 (sends (str "s") new) (
    after m1 m2 m5 (reads answer false m1 refl) (
      after m2 m3 m5 (deposits 0 answer m2 refl refl) (
        after m3 m4 m5 (reads answer false m3 refl)
          (after m4 m5 m5 (gives_up 0 m4 refl) (here m5)))))

m5-IsStuck : IsStuck 0 answer m5
unfolding IsStuck new send read deposit give_up lookup insert eqb
m5-IsStuck = (refl, (answer, refl), refl, omega arith)

reach-IsStuck_example :
    IsStuck 0 answer m6 × ((b : ℕ) (g : Frame) → m6.held b ≡ some g → m5.held b ≡ some g)
reach-IsStuck_example =
    reach-IsStuck 0 answer (after m5 m6 m6 (sends (str "t") m5) (here m6)) m5-IsStuck
