-- ===== src/Ingredients.antt =====
-- src/modules/ingredients: the forms and the repository; no endpoint reaches them yet.
pub mod Schema
pub mod Repository
