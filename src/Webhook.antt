-- ===== src/Webhook.antt =====
-- pkg/release/webhook: the rate limiter of incoming webhooks.
pub mod RateLimiter
mod Examples
