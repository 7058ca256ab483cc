-- ===== src/Api/Navigation/People.antt =====
-- api/navigation.go: the items under "People, population and community".
use dp_topic_api.Prelude.{String}
use dp_topic_api.Models.Navigation.{TopicNonReferential, SubtopicItems, topic, absent, item, end}
use dp_topic_api.Api.Navigation.Entry.{entry, link_to}
use dp_topic_api.Api.Navigation.Labels.{label}

unfoldable pub people_subtopics : String → SubtopicItems
unfolding label
people_subtopics lang =
    (item
      (topic
        (entry "Armed forces community"
          "Information about the armed forces community, including those who have previously served in the armed forces (veterans) and their families, to help support the Armed Forces Covenant."
          "armed-forces-community" (label "armed-forces-community" lang)
          (link_to "armedforcescommunity" "/topics/armedforcescommunity")
          "/peoplepopulationandcommunity/armedforcescommunity")
        absent)
      (item
        (topic
          (entry "Births, deaths and marriages"
            "Life events in the UK including fertility rates, live births and stillbirths, family composition, life expectancy and deaths. This tells us about the health and relationships of the population."
            "births-deaths-and-marriages" (label "births-deaths-and-marriages" lang)
            (link_to "birthsdeathsandmarriages" "/topics/birthsdeathsandmarriages")
            "/peoplepopulationandcommunity/birthsdeathsandmarriages")
          absent)
        (item
          (topic
            (entry "Crime and justice"
              "Crimes committed and the victims' characteristics, sourced from crimes recorded by the police and from the Crime Survey for England and Wales (CSEW). The outcomes of crime in terms of what happened to the offender are also included."
              "crime-and-justice" (label "crime-and-justice" lang)
              (link_to "crimeandjustice" "/topics/crimeandjustice")
              "/peoplepopulationandcommunity/crimeandjustice")
            absent)
          (item
            (topic
              (entry "Cultural identity"
                "How people in the UK see themselves today in terms of ethnicity, sexual identity, religion and language, and how this has changed over time. We use a diverse range of sources for this data."
                "cultural-identity" (label "cultural-identity" lang)
                (link_to "culturalidentity" "/topics/culturalidentity")
                "/peoplepopulationandcommunity/culturalidentity")
              absent)
            (item
              (topic
                (entry "Education and childcare"
                  "Early years childcare, school and college education, and higher education and adult learning, including qualifications, personnel, and safety and well-being. "
                  "education-and-childcare" (label "education-and-childcare" lang)
                  (link_to "educationandchildcare" "/topics/educationandchildcare")
                  "/peoplepopulationandcommunity/educationandchildcare")
                absent)
              (item
                (topic
                  (entry "Elections" "" "elections" (label "elections" lang)
                    (link_to "elections" "/topics/elections")
                    "/peoplepopulationandcommunity/elections")
                  absent)
                (item
                  (topic
                    (entry "Health and social care"
                      "Life expectancy and the impact of factors such as occupation, illness and drug misuse. We collect these statistics from registrations and surveys. "
                      "health-and-social-care" (label "health-and-social-care" lang)
                      (link_to "healthandsocialcare" "/topics/healthandsocialcare")
                      "/peoplepopulationandcommunity/healthandsocialcare")
                    absent)
                  (item
                    (topic
                      (entry "Household characteristics"
                        "The composition of households, including those who live alone, overcrowding and under-occupation, as well as internet and social media usage by household."
                        "household-characteristics" (label "household-characteristics" lang)
                        (link_to "householdcharacteristics" "/topics/householdcharacteristics")
                        "/peoplepopulationandcommunity/householdcharacteristics")
                      absent)
                    (item
                      (topic
                        (entry "Housing"
                          "Property price, private rent and household survey and census statistics, used by government and other organisations for the creation and fulfilment of housing policy in the UK."
                          "housing" (label "housing" lang) (link_to "housing" "/topics/housing")
                          "/peoplepopulationandcommunity/housing")
                        absent)
                      (item
                        (topic
                          (entry "Leisure and tourism"
                            "Visits and visitors to the UK, the reasons for visiting and the amount of money they spent here. Also UK residents travelling abroad, their reasons for travel and the amount of money they spent. The statistics on UK residents travelling abroad are an informal indicator of living standards."
                            "leisure-and-tourism" (label "leisure-and-tourism" lang)
                            (link_to "leisureandtourism" "/topics/leisureandtourism")
                            "/peoplepopulationandcommunity/leisureandtourism")
                          absent)
                        (item
                          (topic
                            (entry "Personal and household finances"
                              "Earnings and household spending, including household and personal debt, expenditure, and income and wealth. These statistics help build a picture of our spending and saving decisions. "
                              "personal-and-household-finances"
                              (label "personal-and-household-finances" lang)
                              (link_to "personalandhouseholdfinances"
                                "/topics/personalandhouseholdfinances")
                              "/peoplepopulationandcommunity/personalandhouseholdfinances")
                            absent)
                          (item
                            (topic
                              (entry "Population and migration"
                                "Size, age, sex and geographic distribution of the UK population, and changes in the UK population and the factors driving these changes. These statistics have a wide range of uses. Central government, local government and the health sector use them for planning, resource allocation and managing the economy. They are also used by people such as market researchers and academics."
                                "population-and-migration" (label "population-and-migration" lang)
                                (link_to "populationandmigration" "/topics/populationandmigration")
                                "/peoplepopulationandcommunity/populationandmigration")
                              absent)
                            (item
                              (topic
                                (entry "Well-being"
                                  "Societal and personal well-being in the UK looking beyond what we produce, to areas such as health, relationships, education and skills, what we do, where we live, our finances and the environment. This data comes from a variety of sources and much of the analysis is new."
                                  "wellbeing" (label "wellbeing" lang)
                                  (link_to "wellbeing" "/topics/wellbeing")
                                  "/peoplepopulationandcommunity/wellbeing")
                                absent)
                              end)))))))))))))

unfoldable pub people_item : String → TopicNonReferential
unfolding label people_subtopics
people_item lang =
    topic
      (entry "People, population and community"
        "People living in the UK, changes in the population, how we spend our money, and data on crime, relationships, health and religion. These statistics help us build a detailed picture of how we live."
        "people-population-and-community" (label "people-population-and-community" lang)
        (link_to "peoplepopulationandcommunity" "/topics/peoplepopulationandcommunity")
        "/peoplepopulationandcommunity")
      (people_subtopics lang)
