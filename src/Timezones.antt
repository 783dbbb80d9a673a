-- ===== src/Timezones.antt =====
-- `readTimezoneCatalog` of daemon/timezone_catalog.cpp: the installed timezones, with the places that zone.tab
-- gives them. A coordinate is its number of arc seconds, of which the source has the quotient by 3600.
pub mod Coordinate
pub mod Table
pub mod Catalog
