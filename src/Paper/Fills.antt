-- ===== src/Paper/Fills.antt =====
-- The quantities and the prices of the fills that the matching makes.
use aiquant_trader.Prelude.{
  ℕ, ◌+◌, ◌-◌, ◌≤◌, ◌≡◌, refl, sym, ap, min, Bool, true, false, Option, none, some, List, [], ◌∷◌,
  ◌==◌, if◌then◌else◌, All, arith,
}
use aiquant_trader.Risk.Domain.{OrderSide, buy, sell, OrderIntent}
use aiquant_trader.Paper.Orders.{
  PaperOrder, PaperFill, ExecutionScenario, KernelBookLevel, Result, ok, err, ◌>>=◌,
}
use aiquant_trader.Paper.Matching.{
  within_limit, capped, taker_price, adverse_price, fill, liquidity, total_liquidity, take_levels,
}

pub bind-inverse :
    {X Y : Type 0} {y : Y} (next : X → Result Y) (first : Result X)
    → (first >>= next) ≡ ok y
    → (x : X) × (first ≡ ok x) × (next x ≡ ok y)
bind-inverse next (err e) h = absurd (never h)
  where
    never : {Y : Type 0} {y : Y} → err e ≡ ok y → ⊥
    never q = cc
bind-inverse next (ok x) h = (x, refl, h)

abbrev pub total_quantity : List PaperFill → ℕ
total_quantity [] = 0
total_quantity (f ∷ fs) = f.quantity_base + total_quantity fs

-- A price that the intent's limit allows.
abbrev pub IsAllowed : OrderIntent → PaperFill → Type 0
IsAllowed i f = within_limit i.side i.limit_price f.price ≡ true

pub fill-ok :
    (o : PaperOrder) (amount price : ℕ) (maker : Bool) (ts : ℕ) (f : PaperFill)
    → fill o amount price maker ts ≡ ok f
    → (f.quantity_base ≡ amount) × (f.price ≡ price) × (f.fill_order_id ≡ o.paper_order_id)
unfolding fill
fill-ok o amount price maker ts f h = (ground arith, ground arith, ground arith)

capped-within :
    (side : OrderSide) (limit : Option ℕ) (price : ℕ)
    → within_limit side limit (capped side limit price) ≡ true
capped-within side none price = refl
capped-within buy (some limit) price = ground arith
capped-within sell (some limit) price = ground arith

-- What the loop over the levels fills and what it leaves are what it was asked for; it leaves
-- nothing if the levels have it; and each fill keeps the limit.
abbrev pub IsTaken :
    ExecutionScenario → PaperOrder → List KernelBookLevel → ℕ → ℕ → List PaperFill → Type 0
IsTaken sc o ls asked left fs =
    (left + total_quantity fs ≡ asked)
    × (asked ≤ total_liquidity sc ls → left ≡ 0)
    × All (IsAllowed o.intent) fs

pub ok_pair : {X Y : Type 0} {p q : X × Y} → ok p ≡ ok q → (p.0 ≡ q.0) × (p.1 ≡ q.1)
ok_pair {X} {Y} {p} {q} h = (ap (λ (r : X × Y). r.0) (value h), ap (λ (r : X × Y). r.1) (value h))
  where
    value : ok p ≡ ok q → p ≡ q
    value e = cc

-- A level whose share of the order is nothing, and one that adds a fill before the others.
IsTaken-skip :
    (sc : ExecutionScenario) (o : PaperOrder) (l : KernelBookLevel) (ls : List KernelBookLevel)
    (asked left : ℕ) (fs : List PaperFill)
    → (min asked (liquidity sc l) == 0) ≡ true
    → IsTaken sc o ls (asked - min asked (liquidity sc l)) left fs
    → IsTaken sc o (l ∷ ls) asked left fs
unfolding total_liquidity
IsTaken-skip sc o l ls asked left fs zero (sum, all, good) =
    (ground (arith, sum), λ enough. all (ground arith), good)

IsTaken-fill :
    (sc : ExecutionScenario) (o : PaperOrder) (l : KernelBookLevel) (ls : List KernelBookLevel)
    (asked left : ℕ) (f : PaperFill) (fs : List PaperFill)
    → f.quantity_base ≡ min asked (liquidity sc l)
    → IsAllowed o.intent f
    → IsTaken sc o ls (asked - min asked (liquidity sc l)) left fs
    → IsTaken sc o (l ∷ ls) asked left (f ∷ fs)
unfolding total_liquidity
IsTaken-fill sc o l ls asked left f fs amount allowed (sum, all, good) =
    (omega (arith, sum, amount), λ enough. all (omega (arith, enough)), (allowed, good))

IsTaken-nothing :
    (sc : ExecutionScenario) (o : PaperOrder) (ls : List KernelBookLevel) (asked : ℕ)
    → (asked == 0) ≡ true
    → IsTaken sc o ls asked 0 []
IsTaken-nothing sc o ls asked none_asked = (ground arith, λ enough. refl, tt)

taken_fill-IsAllowed :
    (sc : ExecutionScenario) (o : PaperOrder) (l : KernelBookLevel) (amount now : ℕ) (f : PaperFill)
    → fill o amount (taker_price sc o.intent l.price) false now ≡ ok f
    → (f.quantity_base ≡ amount) × IsAllowed o.intent f
taken_fill-IsAllowed sc o l amount now f h =
    let (q, p, _) = fill-ok o amount (taker_price sc o.intent l.price) false now f h in
    (
      q,
      rw p (
          capped-within o.intent.side o.intent.limit_price
            (adverse_price sc o.intent.side l.price)),
    )

-- The branches of one turn of the loop, where the rest of the loop is known to be right.
module _ (sc : ExecutionScenario) (o : PaperOrder) (l : KernelBookLevel) (ls : List KernelBookLevel)
    (now asked left : ℕ) (fs : List PaperFill) (rest : Result (ℕ × List PaperFill))
    (rest_taken : (n : ℕ) (gs : List PaperFill)
      → rest ≡ ok (n, gs)
      → IsTaken sc o ls (asked - min asked (liquidity sc l)) n gs) where
  abbrev amount : ℕ
  amount = min asked (liquidity sc l)

  abbrev add_fill : PaperFill → ℕ × List PaperFill → Result (ℕ × List PaperFill)
  add_fill f r = ok (r.0, f ∷ r.1)

  abbrev after_fill_of : Bool → PaperFill → Result (ℕ × List PaperFill)
  after_fill_of last f = if last then ok (0, f ∷ []) else rest >>= add_fill f

  abbrev after_level : PaperFill → Result (ℕ × List PaperFill)
  after_level f = after_fill_of (asked - amount == 0) f

  after_level-IsTaken :
      (b : Bool) (f : PaperFill)
      → (asked - amount == 0) ≡ b
      → (f.quantity_base ≡ amount) × IsAllowed o.intent f
      → after_fill_of b f ≡ ok (left, fs)
      → IsTaken sc o (l ∷ ls) asked left fs
  after_level-IsTaken true f e (q, p) g =
      let (z, one) = ok_pair g in
      rw (sym z, sym one)
        (IsTaken-fill sc o l ls asked 0 f [] q p (IsTaken-nothing sc o ls (asked - amount) e))
  after_level-IsTaken false f e (q, p) g =
      let (r, made, last) = bind-inverse (add_fill f) rest g in
      let (z, more) = ok_pair last in
      rw (sym z, sym more) (IsTaken-fill sc o l ls asked r.0 f r.1 q p (rest_taken r.0 r.1 made))

  level-IsTaken :
      (b : Bool)
      → (amount == 0) ≡ b
      → (if b
          then rest
          else fill o amount (taker_price sc o.intent l.price) false now >>= after_level)
        ≡ ok (left, fs)
      → IsTaken sc o (l ∷ ls) asked left fs
  level-IsTaken true e g = IsTaken-skip sc o l ls asked left fs e (rest_taken left fs g)
  level-IsTaken false e g =
      let (f, made, last) =
        bind-inverse after_level (fill o amount (taker_price sc o.intent l.price) false now) g in
      after_level-IsTaken (asked - amount == 0) f refl
        (taken_fill-IsAllowed sc o l amount now f made) last

pub take_levels-IsTaken :
    (sc : ExecutionScenario) (o : PaperOrder) (now : ℕ) (ls : List KernelBookLevel) (asked left : ℕ)
    (fs : List PaperFill)
    → take_levels sc o now ls asked ≡ ok (left, fs)
    → IsTaken sc o ls asked left fs
unfolding take_levels
take_levels-IsTaken sc o now [] asked left fs h =
    let (l, f) = ok_pair h in
    rw (sym l, sym f) (omega arith, λ enough. unfold total_liquidity in omega (arith, enough), tt)
take_levels-IsTaken sc o now (l ∷ ls) asked left fs h =
    level-IsTaken sc o l ls now asked left fs
      (take_levels sc o now ls (asked - min asked (liquidity sc l)))
      (λ n gs e. take_levels-IsTaken sc o now ls (asked - min asked (liquidity sc l)) n gs e)
      (min asked (liquidity sc l) == 0) refl h
