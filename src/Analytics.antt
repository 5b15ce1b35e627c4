-- ===== src/Analytics.antt =====
-- analytics/: yields, rewards and the attribution of fees.
pub mod ApyRealized
pub mod FeeAttribution
pub mod RewardDistribution
