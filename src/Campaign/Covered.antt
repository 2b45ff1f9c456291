-- ===== src/Campaign/Covered.antt =====
-- Proofs on `_campaign_provenance`: the origins of a report against what the attempts reported.
use pan_agent.Campaign.Provided.{Distinct}
