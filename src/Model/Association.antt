-- ===== src/Model/Association.antt =====
-- src/model/association: the associations of a model's records.
pub mod HasManyQuery
pub mod HasMany
pub mod BelongsTo
