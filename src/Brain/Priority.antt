-- ===== src/Brain/Priority.antt =====
-- `ResearchPriorityScorer` of brain/research/priority.py: how urgent a detected change is, from how hard the
-- rule fired, how long ago the asset was researched, how much of a portfolio it is and on how many
-- watchlists. The reasons, which are texts, are left out. `round(x, 4)` of a float, in ten-thousandths,
-- is a parameter; a document that lies in the future counts as one of this moment.
use trading_brain.Base.{
  ℕ, ◌-◌, ◌*◌, ◌/◌, Bool, ◌&&◌, Option, List, [], ◌∷◌, ◌==◌, if◌then◌else◌, when_some, keep, length,
}
use trading_brain.Quant.Floats.{Floats, min_of, max_of}
use trading_brain.Quant.Accounting.{zero_of}
use trading_brain.Data.ResearchQueue.{ResearchPriority}
use trading_brain.Brain.Changes.{ChangeType, DetectedChange}

-- The text of a kind of change, by its number.
abbrev pub key_of : ChangeType → ℕ
key_of ChangeType.price_shock = 0
key_of ChangeType.large_move = 1
key_of ChangeType.earnings_release = 2
key_of ChangeType.regime_change = 3
key_of ChangeType.thesis_violation = 4
key_of ChangeType.stale_research = 5

module _ (num : Floats) where
  -- A `PaperPosition`, with the initial cash of its portfolio if that is found.
  pub record Holding : Type 0 where
    pub asset_id : ℕ
    pub quantity : num.F
    pub average_cost : num.F
    pub initial_cash : Option num.F

  pub record PriorityWeights : Type 0 where
    pub importance : num.F
    pub novelty : num.F
    pub portfolio_impact : num.F
    pub watchlist_relevance : num.F

-- What is held and watched: the positions, and the asset of each item of a watchlist.
pub record Tracked (num : Floats) : Type 0 where
  pub holdings : List (Holding num)
  pub watched : List ℕ

module _ (num : Floats) where
  abbrev pub percent : ℕ → num.F
  percent n = num.div (num.whole n) (num.whole 100)

  -- The defaults of `PriorityWeights`.
  abbrev pub default_weights : PriorityWeights num
  default_weights = record {
    importance = percent 40;
    novelty = percent 20;
    portfolio_impact = percent 25;
    watchlist_relevance = percent 15;
  }

  -- `normalized_total`
  abbrev pub normalized_total : PriorityWeights num → num.F
  normalized_total w =
      num.add (num.add (num.add w.importance w.novelty) w.portfolio_impact) w.watchlist_relevance

  -- `_novelty`, from when the latest document on the asset was written.
  unfoldable pub novelty_of : ℕ → Option ℕ → num.F
  novelty_of now latest = when_some latest (num.whole 1) λ t.
      min_of num (num.whole 1)
        (num.div (num.whole ((now - t) / 86_400_000_000)) (num.whole (2 * 30)))

  abbrev pub is_held_in : Holding num → Bool
  is_held_in h = num.lt (zero_of num) h.quantity

  -- The share of a position in the initial cash, if there is any.
  abbrev pub with_share : Holding num → num.F → num.F
  with_share h best = when_some h.initial_cash best λ cash.
      if num.le cash (zero_of num)
      then best
      else max_of num best
          (min_of num (num.whole 1) (num.div (num.mul h.quantity h.average_cost) cash))

  -- The loop of `_portfolio_impact`.
  unfoldable pub best_share : List (Holding num) → num.F → num.F
  best_share [] best = best
  best_share (h ∷ holdings) best = best_share holdings (with_share h best)

  unfoldable pub portfolio_impact_of : ℕ → Tracked num → num.F
  unfolding best_share
  portfolio_impact_of asset_id tracked =
      best_share (keep (λ h. h.asset_id == asset_id && is_held_in h) tracked.holdings) (zero_of num)

  -- `_watchlist_relevance`
  unfoldable pub watchlist_relevance_of : ℕ → Tracked num → num.F
  watchlist_relevance_of asset_id tracked =
      let count = length (keep (λ (i : ℕ). i == asset_id) tracked.watched) in
      if count == 0
      then zero_of num
      else min_of num (num.whole 1) (
          num.add (num.div (num.whole 6) (num.whole 10))
            (num.mul (num.div (num.whole 2) (num.whole 10)) (num.whole (count - 1))))

  -- The weighted mean of the components.
  abbrev pub weighted : PriorityWeights num → num.F → num.F → num.F → num.F → num.F
  weighted w importance novelty impact relevance =
      let raw =
        num.add
          (num.add (num.add (num.mul w.importance importance) (num.mul w.novelty novelty))
            (num.mul w.portfolio_impact impact))
          (num.mul w.watchlist_relevance relevance) in
      let total = normalized_total w in
      if num.eq total (num.whole 0) then num.whole 0 else num.div raw total

  -- `ResearchPriorityScorer.score`
  unfoldable pub score_change :
      (num.F → ℕ)
      → PriorityWeights num
      → ℕ
      → Option ℕ
      → Tracked num
      → DetectedChange num
      → ResearchPriority
  unfolding novelty_of portfolio_impact_of watchlist_relevance_of
  score_change round4 w now latest tracked change =
      let novelty = novelty_of now latest in
      let impact = portfolio_impact_of change.asset_id tracked in
      let relevance = watchlist_relevance_of change.asset_id tracked in
      record {
        asset_id = change.asset_id;
        change_type = key_of change.change_type;
        score = round4 (weighted w change.magnitude novelty impact relevance);
        importance = round4 change.magnitude;
        novelty = round4 novelty;
        portfolio_impact = round4 impact;
        watchlist_relevance = round4 relevance;
      }
